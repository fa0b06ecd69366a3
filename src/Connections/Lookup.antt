-- ===== src/Connections/Lookup.antt =====
-- The target of a connection.
use Prim.Native.String.{String}
use text.Mathlib.Text.{◌==◌ as str_eq}
use ipbus.Common.{ℕ, suc, ◌≡◌, ◌≢◌, refl, ap, ◌∙◌, ℤ, true, false, List, [], ◌∷◌, ◌++◌, none, some}
use ipbus.Outcome.{done}
use ipbus.Protocol.{no_connection}
use ipbus.Strings.{remove_first}
use ipbus.AddressTable.{Token, Outside, file, lookup_reg}
use ipbus.AddressTable.Spec.{BlockEntry, elements, table_tokens, IsTable, add_table, top_register}
use ipbus.AddressTable.Meaning.{parseregfile-table}
use ipbus.Connections.{
  Connection, Cm, Net, dialed, Target, find_loop, new_target, target, default_timeout,
  default_auto_dispatch,
}
use ipbus.Hw.{new_hw}

-- None of some connections has the name.
abbrev pub NotNamed : String → List Connection → Type 0
NotNamed name [] = Unit
NotNamed name (c ∷ cs) = (str_eq c.id name ≡ false) × NotNamed name cs

find_loop-others :
    (out : Outside) (fn name : String) (cs : List Connection) (q : String × String)
    → NotNamed name cs
    → find_loop out fn name cs q ≡ q
unfolding find_loop
find_loop-others out fn name [] q h = refl
find_loop-others out fn name (c ∷ cs) q (other, h) = rw other (find_loop-others out fn name cs q h)

find_loop-last :
    (out : Outside) (fn name : String) (before : List Connection) (c : Connection)
    (after : List Connection) (q : String × String)
    → str_eq c.id name ≡ true
    → NotNamed name after
    → find_loop out fn name (before ++ (c ∷ after)) q ≡ (
      remove_first "ipbusudp-2.0://" c.uri,
      out.join_path (out.dir fn) (remove_first "file://" c.address),
    )
unfolding find_loop
find_loop-last out fn name [] c after q is_named h =
    rw (find_loop, is_named) (find_loop-others out fn name after _ h)
find_loop-last out fn name (b ∷ before) c after q is_named h =
    find_loop-last out fn name before c after _ is_named h

-- A name that no connection has is answered by an error.
target_unknown :
    (out : Outside) (fuel : ℕ) (net : Net) (cm : Cm) (name : String)
    → NotNamed name cm.connlist
    → target out fuel net cm name ≡ done (none, some no_connection)
unfolding target
target_unknown out fuel net cm name h =
    rw (find_loop-others out cm.fn name cm.connlist ("", "") h) refl

-- Of the connections with a name the last one counts. Where the rest of its URI behind
-- `ipbusudp-2.0://` is not empty and is resolved and dialled without an error, and the elements of the
-- file in the directory of the connections file to which its address table points are those of an
-- address table without modules (one element whose only attribute is an id, around blocks of registers
-- with masks, with their attributes in any order, as for `parseregfile`), `CM.Target` returns a target
-- without an error or a panic: its address is that of the connection, its name is `dummy`, and it has
-- the registers of the table under their names, and no others but perhaps one with the empty name.
pub target-table :
    (out : Outside) (fuel : ℕ) (net : Net) (cm : Cm) (name : String) (before : List Connection)
    (c : Connection) (after : List Connection) (dest raddr remote : String) (tokens : List Token)
    (top_id : String) (bs : List BlockEntry) (sizes : List ℤ)
    → cm.connlist ≡ before ++ (c ∷ after)
    → str_eq c.id name ≡ true
    → NotNamed name after
    → remove_first "ipbusudp-2.0://" c.uri ≡ dest
    → str_eq dest "" ≡ false
    → net.resolve dest ≡ (raddr, none)
    → net.dial raddr ≡ dialed remote
    → out.open_file (out.join_path (out.dir cm.fn) (remove_first "file://" c.address))
      ≡ file tokens none
    → elements tokens ≡ table_tokens top_id bs
    → IsTable out bs sizes
    → (t : Target) × (target out (suc fuel) net cm name ≡ done (some t, none))
      × (t.addr ≡ remote)
      × (t.name ≡ "dummy")
      × ((k : String)
          → k ≢ ""
          → lookup_reg k t.regs
            ≡ lookup_reg k (add_table out "" 0 bs sizes (("", top_register "") ∷ [])))
unfolding target new_target
target-table out fuel net cm name before c after dest raddr remote tokens top_id bs sizes split
      named h is_dest some_dest resolved is_dialed opens same t =
    let path = out.join_path (out.dir cm.fn) (remove_first "file://" c.address) in
    let found : find_loop out cm.fn name cm.connlist ("", "") ≡ (dest, path) =
      ap (λ cs. find_loop out cm.fn name cs ("", "")) split
      ∙ find_loop-last out cm.fn name before c after ("", "") named h
      ∙ ap (λ d. (d, path)) is_dest in
    let (regs, parsed, view) =
      parseregfile-table out fuel path "" 0 [] tokens top_id bs sizes opens same t in
    (
      record {
        name = "dummy";
        timeout_period = default_timeout;
        auto_dispatch = default_auto_dispatch;
        dest = "";
        addr = remote;
        regs = regs;
        hw = new_hw default_timeout;
      },
      rw (found, some_dest, resolved, is_dialed, parsed) refl,
      refl,
      refl,
      view,
    )
