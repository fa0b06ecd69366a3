-- ===== src/IdLog/Tests.antt =====
-- Id logs of three ids, and the theorems at them.
use ipbus.Common.{ℕ, ◌≡◌, refl, List, [], ◌∷◌, true, arith, suc, zero, get_elem?, ◌+◌, ◌%◌, ◌<◌}
use ipbus.Outcome.{done}
use ipbus.IdLog.{IdLog, new_id_log, newest}
use ipbus.IdLog.Queue.{
  Call, adding, removing, asking_oldest, asking_second, asking_all, answers, queue_answers,
}
use ipbus.IdLog.Ring.{Holds}
use ipbus.IdLog.Refine.{answers-new_id_log, newest-full}

abbrev calls : List Call
calls =
    adding 7
    ∷ adding 8
    ∷ adding 9
    ∷ adding 10
    ∷ removing
    ∷ adding 11
    ∷ asking_second
    ∷ asking_oldest
    ∷ adding 0
    ∷ asking_all
    ∷ []

answers-new_id_log_example : answers calls (new_id_log 3) ≡ done (queue_answers 3 calls [])
answers-new_id_log_example = answers-new_id_log calls 3 (omega arith)

-- The ring has gone around once.
abbrev full_log : IdLog
full_log = record { ids = 11 ∷ 8 ∷ 9 ∷ []; first = 1; n = 3; max = 3 }

full_log-Holds : Holds full_log (8 ∷ 9 ∷ 11 ∷ [])
full_log-Holds = record {
  size = refl;
  first_in = omega arith;
  counted = refl;
  fits = omega arith;
  slots = at;
}
  where
    at :
        (j : ℕ)
        → j < 3
        → get_elem? {A = ℕ} (11 ∷ 8 ∷ 9 ∷ []) ((1 + j) % 3) ≡ get_elem? {A = ℕ} (8 ∷ 9 ∷ 11 ∷ []) j
    at zero h = refl
    at (suc zero) h = refl
    at (suc (suc zero)) h = refl
    at (suc (suc (suc j))) h = absurd (omega arith)

newest-full_example : newest full_log ≡ done (8, true)
newest-full_example = newest-full full_log 8 (9 ∷ 11 ∷ []) full_log-Holds refl
