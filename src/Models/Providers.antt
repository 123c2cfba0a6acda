-- ===== src/Models/Providers.antt =====
-- The registry of providers of internal/runtime/models.go, and which provider makes a model.
use crated.Prelude.{
  String, List, [], ◌∷◌, ◌++◌, none, some, errorf, str, ok, err, if◌then◌else◌, ◌==◌, ◌≡◌, ◌≢◌, ap,
  arith,
}
use crated.Dict.{lookup-insert, keys-insert_fresh}
use crated.Models.{ModelProvider, Providers, register_provider, get_provider, registered_providers}

module _ {M : Type 0} where
  -- The registry behind a registration, and the one before it.
  pub record IsRegistered (p : ModelProvider M) (before after : Providers M) : Type 0 where
    pub was_new : get_provider p.name before ≡ none
    pub found :
        (name : String)
        → get_provider name after ≡ (if p.name == name then some p else get_provider name before)
    pub listed :
        (range : List String → List String)
        → registered_providers range after
          ≡ range (registered_providers (λ names. names) before ++ p.name ∷ [])

  -- A registration succeeds only if the name is new. Then the provider is found under its name, every
  -- other name finds what it found before, and the names, in the order in which the map is ranged over,
  -- are the old ones and this one.
  pub register_provider-IsRegistered :
      (p : ModelProvider M) (before after : Providers M)
      → register_provider p before ≡ ok after
      → IsRegistered p before after
  unfolding register_provider get_provider registered_providers
  register_provider-IsRegistered p before after h = record {
    was_new = ground arith;
    found = λ name. ground (arith, lookup-insert p.name name p before);
    listed = λ range. ap range (ground (arith, keys-insert_fresh p.name p before));
  }

  -- A second registration of a name is refused.
  pub register_provider_again :
      (p : ModelProvider M) (providers : Providers M)
      → get_provider p.name providers ≢ none
      → register_provider p providers
        ≡ err (errorf "model provider %q already registered" (str p.name ∷ []))
  unfolding register_provider get_provider
  register_provider_again p providers h = ground arith
