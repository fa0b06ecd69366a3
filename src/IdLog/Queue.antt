-- ===== src/IdLog/Queue.antt =====
-- What an id log promises: a queue of ids that holds `cap` of them at most.
use ipbus.Common.{
  ℕ, Bool, true, false, List, [], ◌∷◌, ◌++◌, Option, none, some, length, ◌==◌, if◌then◌else◌,
}
use ipbus.Outcome.{Outcome, done, ◌>>=◌}
use ipbus.Protocol.{Error, id_zero, idlog_full, idlog_empty}
use ipbus.IdLog.{IdLog, add, remove, oldest, secondoldest, sorted}

-- The calls of an id log, and what a caller learns from each.
pub data Call : Type 0 where
  adding : ℕ → Call
  removing asking_oldest asking_second asking_all : Call

pub data Answer : Type 0 where
  err : Option Error → Answer
  one : Option ℕ → Answer
  all : List ℕ → Answer

-- The id of a pair whose second component says that there is one.
abbrev pub if_ok : ℕ × Bool → Option ℕ
if_ok (id, true) = some id
if_ok (id, false) = none

unfoldable pub call : Call → IdLog → Outcome (IdLog × Answer)
call (adding id) i = do (i', e) ← add i id; done (i', err e)
call removing i = do (i', e) ← remove i; done (i', err e)
call asking_oldest i = do r ← oldest i; done (i, one (if_ok r))
call asking_second i = do r ← secondoldest i; done (i, one (if_ok r))
call asking_all i = do vals ← sorted i; done (i, all vals)

-- The same calls on the queue.
unfoldable pub queue_call : ℕ → Call → List ℕ → List ℕ × Answer
queue_call cap (adding id) q =
    if id == 0
    then (q, err (some id_zero))
    else if length q == cap
    then (q, err (some idlog_full))
    else (q ++ (id ∷ []), err none)
queue_call cap removing [] = ([], err (some idlog_empty))
queue_call cap removing (x ∷ q) = (q, err none)
queue_call cap asking_oldest [] = ([], one none)
queue_call cap asking_oldest (x ∷ q) = (x ∷ q, one (some x))
queue_call cap asking_second [] = ([], one none)
queue_call cap asking_second (x ∷ []) = (x ∷ [], one none)
queue_call cap asking_second (x ∷ y ∷ q) = (x ∷ y ∷ q, one (some y))
queue_call cap asking_all q = (q, all q)

-- The answers to some calls, one after the other.
unfoldable pub answers : List Call → IdLog → Outcome (List Answer)
answers [] i = done []
answers (c ∷ cs) i = do (i', a) ← call c i; rest ← answers cs i'; done (a ∷ rest)

abbrev pub queue_answers : ℕ → List Call → List ℕ → List Answer
queue_answers cap [] q = []
queue_answers cap (c ∷ cs) q = let (q', a) = queue_call cap c q in a ∷ queue_answers cap cs q'
