-- ===== src/Connections.antt =====
-- connectionmanager.go: the connections file and the target of a connection; target.go: `New`;
-- parser.go: `Target.parse`. Reading a connections file (ioutil.ReadFile, xml.Unmarshal) and the
-- package net are parameters.
pub mod Lookup
mod Tests
use Prim.Native.String.{String}
use text.Mathlib.Text.{◌==◌ as str_eq}
use ipbus.Common.{ℕ, Bool, true, false, List, [], ◌∷◌, ◌++◌, map, Option, none, some, if◌then◌else◌}
use ipbus.Outcome.{Outcome, done, panic, ◌>>=◌}
use ipbus.Protocol.{Error, no_connection}
use ipbus.Strings.{remove_first}
use ipbus.AddressTable.{Outside, Regs}
use ipbus.AddressTable.Parse.{parseregfile, Parsed}
use ipbus.Hw.{Hw, new_hw}

pub record Connection : Type 0 where
  pub id : String
  pub uri : String
  pub address : String

-- What is made of a connections file: the error of reading it, or its connections.
pub data Conns : Type 0 where
  not_read : Error → Conns
  conns : List Connection → Conns

pub record Cm : Type 0 where
  pub devices : List String
  pub connlist : List Connection
  pub fn : String

-- `NewCM`
unfoldable pub new_cm : (String → Conns) → String → Cm × Option Error
new_cm read fn = elim (read fn) [
  | not_read e ↦ (record { devices = []; connlist = []; fn = "" }, some e)
  | conns cs ↦ (record { devices = map (λ c. c.id) cs; connlist = cs; fn = fn }, none)
]

-- `net.DialUDP`: its error, or the remote address of the connection.
pub data Dialed : Type 0 where
  not_dialed : Error → Dialed
  dialed : String → Dialed

pub record Net : Type 0 where
  pub resolve : String → String × Option Error
  pub dial : String → Dialed

-- `Target`, without its channels, and without the fields that nothing uses.
pub record Target : Type 0 where
  pub name : String
  pub timeout_period : ℕ
  pub auto_dispatch : Bool
  pub dest : String
  pub addr : String
  pub regs : Regs
  pub hw : Hw

abbrev pub default_timeout : ℕ
default_timeout = 3_000_000_000

abbrev pub default_auto_dispatch : Bool
default_auto_dispatch = false

abbrev pub Made : Type 0
Made = Outcome (Option Target × Option Error)

-- The loop of `CM.Target`: the destination and the path of the last connection of the name.
unfoldable pub find_loop :
    Outside → String → String → List Connection → String × String → String × String
find_loop out fn name [] q = q
find_loop out fn name (c ∷ cs) q = find_loop out fn name cs (
    if str_eq c.id name
    then (
      remove_first "ipbusudp-2.0://" c.uri,
      out.join_path (out.dir fn) (remove_first "file://" c.address),
    )
    else q)

module _ (out : Outside) (fuel : ℕ) where
  -- `New`, where the remote address of the connection is `raddr`
  unfoldable pub new_target : String → String → String → Made
  new_target name fn raddr = do
    (regs, e) ← parseregfile out fuel fn "" 0 []
    done (
      some (record {
        name = name;
        timeout_period = default_timeout;
        auto_dispatch = default_auto_dispatch;
        dest = "";
        addr = raddr;
        regs = regs;
        hw = new_hw default_timeout;
      }),
      e,
    )

  abbrev pub with_dialed : String → Dialed → Made
  with_dialed path (not_dialed e) = panic
  with_dialed path (dialed raddr) = new_target "dummy" path raddr

  abbrev pub with_resolved : Net → String → String × Option Error → Made
  with_resolved net path (raddr, some e) = done (none, some e)
  with_resolved net path (raddr, none) = with_dialed path (net.dial raddr)

  -- `CM.Target`; without a target it returns the zero value, which is `none` here.
  unfoldable pub target : Net → Cm → String → Made
  target net cm name =
      let (dest, path) = find_loop out cm.fn name cm.connlist ("", "") in
      if str_eq dest ""
      then done (none, some no_connection)
      else with_resolved net path (net.resolve dest)

  -- `if err := t.parseregfile(…); err != nil { return err }`
  abbrev pub parsed_all :
      (Regs → Outcome (Target × Option Error))
      → Target
      → Regs × Option Error
      → Outcome (Target × Option Error)
  parsed_all go_on t (regs, some e) = done (record t { regs = regs }, some e)
  parsed_all go_on t (regs, none) = go_on regs

  -- The loop of `Target.parse`.
  unfoldable pub parse_conns : List Connection → Target → Outcome (Target × Option Error)
  parse_conns [] t = done (t, none)
  parse_conns (c ∷ cs) t =
      if str_eq c.id t.name
      then (let t' = record t { dest = remove_first "ipbusudp-2.0://" c.uri } in
          parseregfile out fuel (remove_first "file://" c.address) "" 0 t'.regs
          >>= parsed_all (λ regs. parse_conns cs (record t' { regs = regs })) t')
      else parse_conns cs t

  -- `Target.parse`
  unfoldable pub parse : (String → Conns) → String → Target → Outcome (Target × Option Error)
  parse read fn t = elim (read fn) [ not_read e ↦ done (t, some e) | conns cs ↦ parse_conns cs t ]
