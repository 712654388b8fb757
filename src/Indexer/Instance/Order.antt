-- ===== src/Indexer/Instance/Order.antt =====
-- The order of the hosts of manager/src/indexer/instance.rs.
use test_ci_for_massbitproto.Prelude.{
  true, false, Option, none, some, List, [], ◌∷◌, ◌++◌, ◌≡◌, ◌⊎◌, refl, sym, ap, arith, subst,
  Bool-cases, inl, inr,
}
use test_ci_for_massbitproto.Prelude.Outcome.{done, assert, done-injective, bind_inversion}
use test_ci_for_massbitproto.Indexer.BlockState.{Chain}
use test_ci_for_massbitproto.Indexer.Runtime.{Runtime}
use test_ci_for_massbitproto.Indexer.Instance.{
  le_block, IndexerInstance, new_host, last_creation_block, contains, add_dynamic_data_source,
}
use test_ci_for_massbitproto.Indexer.Instance.Modules.{new_host_lem}

module _ {C : Chain} (R : Runtime C) where
  -- each host was created in a block no later than the next one
  abbrev pub IsOrdered : List R.Host → Type 0
  IsOrdered [] = Unit
  IsOrdered (h ∷ []) = Unit
  IsOrdered (h ∷ k ∷ hosts) =
      (le_block (R.creation_block_number h) (R.creation_block_number k) ≡ true)
      × IsOrdered (k ∷ hosts)

  append-IsOrdered :
      (hosts : List R.Host) (host : R.Host)
      → IsOrdered hosts
      → le_block (last_creation_block R hosts) (R.creation_block_number host) ≡ true
      → IsOrdered (hosts ++ host ∷ [])
  unfolding last_creation_block
  append-IsOrdered [] host ordered h = tt
  append-IsOrdered (k ∷ []) host ordered h = (h, tt)
  append-IsOrdered (k ∷ l ∷ hosts) host (first, ordered) h =
      (first, append-IsOrdered (l ∷ hosts) host ordered h)

  -- What `add_dynamic_data_source` returns, with the instance after it: no host, where it has an equal,
  -- or a host of the data source behind the others.
  abbrev pub IsAdded : R.DataSource → IndexerInstance R → Option R.Host × IndexerInstance R → Type 0
  IsAdded ds this (added, this') =
      ((added ≡ none) × (this'.hosts ≡ this.hosts))
      ⊎ ((host : R.Host) × (added ≡ some host)
          × (contains R this.hosts host ≡ false)
          × (this'.hosts ≡ this.hosts ++ host ∷ [])
          × (sender : R.Sender) × (R.build ds sender ≡ done host))

  pub add_dynamic_data_source-IsAdded :
      (ds : R.DataSource) (this this' : IndexerInstance R) (added : Option R.Host)
      → add_dynamic_data_source R ds this ≡ done (added, this')
      → (le_block (last_creation_block R this.hosts) (R.creation_block ds) ≡ true)
        × IsAdded ds this (added, this')
  unfolding add_dynamic_data_source
  add_dynamic_data_source-IsAdded ds this this' added h =
      let (u, late, rest) =
        bind_inversion (assert (le_block (last_creation_block R this.hosts) (R.creation_block ds)))
          _ (added, this') h in
      let ((host, this₁), made, last) = bind_inversion (new_host R ds this) _ (added, this') rest in
      let (sender, built, there, kept, same) = new_host_lem R ds this this₁ host made in
      (
        ground (arith, late),
        elim (Bool-cases (contains R this₁.hosts host)) [
          | inl twice ↦
              subst (IsAdded ds this) (done-injective (rw twice at last)) (inl (refl, same))
          | inr new ↦ subst (IsAdded ds this) (done-injective (rw new at last)) (
              inr (
                host,
                refl,
                subst (λ l. contains R l host ≡ false) same new,
                ap (λ l. l ++ host ∷ []) same,
                sender,
                built,
              ))
        ],
      )

  -- Where a host has the creation block of its data source, and the hosts of the instance are in the
  -- order of their creation blocks, they are in this order after `add_dynamic_data_source`, where it
  -- returns. It adds the host that it returns behind the others, which has no equal among them, or it
  -- returns none and leaves the hosts as they are.
  pub add_dynamic_data_source-IsOrdered :
      ((ds : R.DataSource) (sender : R.Sender) (host : R.Host)
        → R.build ds sender ≡ done host
        → R.creation_block_number host ≡ R.creation_block ds)
      → (ds : R.DataSource) (this this' : IndexerInstance R) (added : Option R.Host)
      → IsOrdered this.hosts
      → add_dynamic_data_source R ds this ≡ done (added, this')
      → IsOrdered this'.hosts
        × (((added ≡ none) × (this'.hosts ≡ this.hosts))
            ⊎ ((host : R.Host) × (added ≡ some host)
                × (contains R this.hosts host ≡ false)
                × (this'.hosts ≡ this.hosts ++ host ∷ [])))
  add_dynamic_data_source-IsOrdered dates ds this this' added ordered h =
      let (late, added') = add_dynamic_data_source-IsAdded ds this this' added h in
      elim added' [
        | inl (nothing, same) ↦ (subst IsOrdered (sym same) ordered, inl (nothing, same))
        | inr (host, given, new, more, sender, built) ↦ (
          subst IsOrdered (sym more) (
              append-IsOrdered this.hosts host ordered (
                subst (λ b. le_block (last_creation_block R this.hosts) b ≡ true)
                  (sym (dates ds sender host built)) late)),
          inr (host, given, new, more),
        )
      ]
