-- ===== src/Target/Prepare/Tests.antt =====
-- Requests that are split, and the theorem at one of them.
use ipbus.Common.{refl, false, []}
use ipbus.Protocol.{read}
use ipbus.Target.{UsrRequest}
use ipbus.Target.Prepare.{prepare}
use ipbus.Target.Prepare.Requests.{for_read, Prepared, prepare_lem}

abbrev big_read : UsrRequest
big_read = record {
  typeid = read;
  nwords = 1000;
  addr = 0xffff_ff00;
  input = [];
  resp = 1;
  byteslice = false;
  dispatch = false;
}

prepare_lem_example : Prepared big_read [] (prepare [] big_read)
prepare_lem_example = prepare_lem big_read [] (for_read refl refl) refl tt
