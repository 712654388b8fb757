-- ===== src/Indexer/Instance/Modules.antt =====
-- The cache of modules of manager/src/indexer/instance.rs.
use test_ci_for_massbitproto.Prelude.{Option, some, ◌≡◌, refl, arith, subst, Option-cases, inl, inr}
use test_ci_for_massbitproto.Prelude.HashMap
use test_ci_for_massbitproto.Prelude.HashMap.{get-insert}
use test_ci_for_massbitproto.Prelude.Outcome.{done, done-injective, bind_inversion}
use test_ci_for_massbitproto.Indexer.BlockState.{Chain}
use test_ci_for_massbitproto.Indexer.Runtime.{Runtime}
use test_ci_for_massbitproto.Indexer.Instance.{
  IndexerInstance, spawn, mapping_request_sender, new_host,
}

module _ {C : Chain} (R : Runtime C) where
  abbrev cached : R.Hash → IndexerInstance R → Option R.Sender
  cached k this = HashMap.get R.hash_discrete k this.module_cache

  -- what looking up the channel of the module with the hash `key` does
  abbrev IsSent : R.Hash → IndexerInstance R → R.Sender × IndexerInstance R → Type 0
  IsSent key this (sender, this') =
      (cached key this' ≡ some sender)
      × ((k : R.Hash) (old : R.Sender) → cached k this ≡ some old → cached k this' ≡ some old)
      × (this'.hosts ≡ this.hosts)

  sender_lem :
      (ds : R.DataSource) (this this' : IndexerInstance R) (sender : R.Sender)
      → mapping_request_sender R ds this ≡ done (sender, this')
      → IsSent (R.keccak256 (R.runtime ds)) this (sender, this')
  unfolding mapping_request_sender spawn
  sender_lem ds this this' sender h =
      let key = R.keccak256 (R.runtime ds) in
      elim (Option-cases (cached key this)) [
        | inl missing ↦
            let (sent, spawned, last) =
              bind_inversion (R.spawn_mapping (R.runtime ds)) _ (sender, this')
                (rw (missing, mapping_request_sender) at h) in
            let set = λ (k : R.Hash). get-insert R.hash_discrete key k this.module_cache sent in
            subst (IsSent key this) (done-injective last) (
              ground (arith, set key),
              λ k old there. elim (R.hash_discrete key k) [
                | yes e ↦ absurd (ground (arith, missing, there, e))
                | no ne ↦ ground (arith, set k, there, ne)
              ],
              refl,
            )
        | inr (old, found) ↦
            subst (IsSent key this) (done-injective (rw (found, mapping_request_sender) at h))
              (found, λ k old there. there, refl)
      ]

  -- A new host is built with the channel that the cache then has for the hash of its module. What the
  -- cache had stays, so that a module that was spawned is not spawned again. The hosts are unchanged.
  pub new_host_lem :
      (ds : R.DataSource) (this this' : IndexerInstance R) (host : R.Host)
      → new_host R ds this ≡ done (host, this')
      → (sender : R.Sender) × (R.build ds sender ≡ done host)
        × (cached (R.keccak256 (R.runtime ds)) this' ≡ some sender)
        × ((k : R.Hash) (old : R.Sender) → cached k this ≡ some old → cached k this' ≡ some old)
        × (this'.hosts ≡ this.hosts)
  unfolding new_host
  new_host_lem ds this this' host h =
      let ((sender, this₁), sent, rest) =
        bind_inversion (mapping_request_sender R ds this) _ (host, this') h in
      let (host₁, built, last) = bind_inversion (R.build ds sender) _ (host, this') rest in
      let (there, kept, same) = sender_lem ds this this₁ sender sent in
      subst
        (λ (r : R.Host × IndexerInstance R).
          (s : R.Sender) × (R.build ds s ≡ done r.0)
          × (cached (R.keccak256 (R.runtime ds)) r.1 ≡ some s)
          × ((k : R.Hash) (old : R.Sender) → cached k this ≡ some old → cached k r.1 ≡ some old)
          × (r.1.hosts ≡ this.hosts))
        (done-injective last) (sender, built, there, kept, same)
