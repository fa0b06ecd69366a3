-- ===== src/Connections/Tests.antt =====
-- A target of a connections file.
use Prim.Native.String.{String}
use text.Mathlib.Text.{◌==◌ as str_eq}
use ipbus.Common.{◌≡◌, ◌≢◌, refl, pos, inl, inr, List, [], ◌∷◌, none, some, if◌then◌else◌}
use ipbus.Outcome.{done}
use ipbus.Strings.{split, pieces, contains, remove_first, drop_chars}
use ipbus.Strings.Laws.{dots}
use ipbus.AddressTable.{Outside, file, lookup_reg}
use ipbus.AddressTable.Parse.{width_loop}
use ipbus.AddressTable.Spec.{BlockEntry, table_tokens, IsTable, add_table, top_register}
use ipbus.Connections.{Connection, Net, dialed, conns, new_cm, Target, target}
use ipbus.Connections.Lookup.{target-table}

abbrev one_block : List BlockEntry
one_block =
    record {
      id = "ctrl";
      attrs = ("id", "ctrl") ∷ ("address", "0x1000") ∷ ("fwinfo", "endpoint") ∷ [];
      entries =
          record { id = "mode"; attrs = ("address", "0x4") ∷ ("id", "mode") ∷ []; masks = [] } ∷ [];
    }
    ∷ []

abbrev outside : Outside
outside = record {
  open_file = λ fn. file (table_tokens "TOP" one_block) none;
  parse_uint = λ s. if str_eq s "0x1000" then 4096 else 4;
  parse_int = λ s. pos 0;
  split_dir = λ fn. "";
  dir = λ fn. "";
  join_path = λ dir fn. fn;
}

abbrev net : Net
net = record { resolve = λ dest. (dest, none); dial = λ raddr. dialed raddr }

abbrev connection : String → String → Connection
connection id uri = record { id = id; uri = uri; address = "file://addrtab/t.xml" }

abbrev crate : List Connection
crate =
    connection "a" "ipbusudp-2.0://10.0.0.1:50001"
    ∷ connection "b" "ipbusudp-2.0://10.0.0.2:50001"
    ∷ connection "a" "ipbusudp-2.0://10.0.0.3:50001"
    ∷ []

-- The names of the connections, as `NewCM` leaves them.
crate_devices : (new_cm (λ fn. conns crate) "c.xml").0.devices ≡ "a" ∷ "b" ∷ "a" ∷ []
unfolding new_cm
crate_devices = refl

one_block-IsTable : IsTable outside one_block (pos 0 ∷ [])
unfolding width_loop split pieces contains dots
one_block-IsTable = (
  (refl, refl),
  inl (refl, refl, (refl, (refl, tt))),
  refl,
  inr (refl, inl refl),
  ((refl, refl), inr (refl, inl (refl, refl, tt)), refl, inl refl, tt, tt),
  refl,
  tt,
)

some_dest : remove_first "ipbusudp-2.0://" "ipbusudp-2.0://10.0.0.2:50001" ≡ "10.0.0.2:50001"
unfolding remove_first drop_chars
some_dest = refl

target-table_example :
    (t : Target) × (target outside 1 net
        (record { devices = []; connlist = crate; fn = "c.xml" })
        "b"
      ≡ done (some t, none))
    × (t.addr ≡ "10.0.0.2:50001")
    × (t.name ≡ "dummy")
    × ((k : String)
        → k ≢ ""
        → lookup_reg k t.regs
          ≡ lookup_reg k
              (add_table outside "" 0 one_block (pos 0 ∷ []) (("", top_register "") ∷ [])))
target-table_example =
    target-table outside 0 net (record { devices = []; connlist = crate; fn = "c.xml" }) "b"
      (connection "a" "ipbusudp-2.0://10.0.0.1:50001" ∷ [])
      (connection "b" "ipbusudp-2.0://10.0.0.2:50001")
      (connection "a" "ipbusudp-2.0://10.0.0.3:50001" ∷ []) "10.0.0.2:50001" "10.0.0.2:50001"
      "10.0.0.2:50001" (table_tokens "TOP" one_block) "TOP" one_block (pos 0 ∷ []) refl refl
      (refl, tt) some_dest refl refl refl refl refl one_block-IsTable
