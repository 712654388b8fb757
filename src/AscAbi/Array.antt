-- ===== src/AscAbi/Array.antt =====
-- The wrapper `Array` of runtime/wasm/src/asc_abi/class.rs.
pub mod V004
pub mod V005
use test_ci_for_massbitproto.Prelude.{ℕ, if◌then◌else◌, List}
use test_ci_for_massbitproto.Prelude.Outcome.{Outcome, done, ◌>>=◌}
use test_ci_for_massbitproto.AscHeap.Ptr.{version_le, legacy_version, AscHeap}

pub data Array : Type 0 where
  version_0_0_4 : V004.Array → Array
  version_0_0_5 : V005.Array → Array

module _ (H : AscHeap) where
  unfoldable pub new : ℕ → List ℕ → H.State → Outcome (Array × H.State)
  new size content heap =
      if version_le H.api_version legacy_version
      then (do (a, heap') ← V004.new H size content heap; done (version_0_0_4 a, heap'))
      else (do (a, heap') ← V005.new H size content heap; done (version_0_0_5 a, heap'))

  unfoldable pub to_vec : ℕ → Array → H.State → Outcome (List ℕ)
  to_vec size (version_0_0_4 a) heap = V004.to_vec H size a heap
  to_vec size (version_0_0_5 a) heap = V005.to_vec H size a heap
