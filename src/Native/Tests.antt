-- ===== src/Native/Tests.antt =====
-- The theorems on native errors and on gates at inputs that meet their hypotheses.
use talon_sdk_go.Base.{◌≡◌, ◌↔◌, refl, [], ◌∷◌, codes, ok, false, bytes_equal, ErrorCode}
use talon_sdk_go.Native.{
  NativeInfo, embedded_native_error, server_native_error, require_capability, is_gated, find_gate,
  require_snapshot_read, find_capability, contains_string,
}
use talon_sdk_go.Native.Codes.{
  embedded_native_error-eq-server_native_error, server_native_error-uncertain,
}
use talon_sdk_go.Native.Gates.{IsOpen, require_capability-IsOpen}

abbrev snapshots : NativeInfo
snapshots = record {
  features = codes "storage_conditional_snapshot_read_v2" ∷ [];
  capabilities =
      record {
        name = codes "storage_conditional_snapshot_read";
        version = 2;
        status = codes "available";
      }
      ∷ [];
  gates = (codes "fts", codes "planned") ∷ [];
}

snapshots_v2 : require_capability snapshots (codes "storage_conditional_snapshot_read_v2") ≡ ok tt
unfolding require_capability is_gated find_gate require_snapshot_read find_capability
    contains_string bytes_equal
snapshots_v2 = refl

require_capability-IsOpen_example :
    (is_gated snapshots (codes "storage_conditional_snapshot_read_v2") ≡ false)
    × IsOpen snapshots (codes "storage_conditional_snapshot_read_v2")
require_capability-IsOpen_example =
    require_capability-IsOpen snapshots (codes "storage_conditional_snapshot_read_v2") snapshots_v2

embedded_native_error-eq-server_native_error_example :
    embedded_native_error (codes "fenced") ≡ server_native_error (codes "fenced")
embedded_native_error-eq-server_native_error_example =
    embedded_native_error-eq-server_native_error (codes "fenced") (unfold bytes_equal in refl)
      (unfold bytes_equal in refl)

server_native_error-uncertain_example :
    ((server_native_error (codes "fenced")).code ≡ ErrorCode.result_indeterminate)
    ↔ (codes "fenced" ≡ codes "uncertain")
server_native_error-uncertain_example = server_native_error-uncertain (codes "fenced")
