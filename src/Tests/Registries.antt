-- ===== src/Tests/Registries.antt =====
-- The limiter of internal/ratelimit/limiter.go, and the models of internal/runtime/models.go.
use crated.Prelude.{
  ◌+◌, ◌≤◌, true, String, List, [], ◌∷◌, Option, none, some, Error, errorf, Result, ok, err, ◌≡◌,
  refl, arith, pos, ◌↔◌, if◌then◌else◌, ◌==◌, increment64,
}
use crated.Prelude.Text.{◌<>◌}
use crated.Dict.{lookup, insert}
use crated.Genai.{ModelConfig}
use crated.RateLimit.{
  Limiter, new, acquire, release, act, idle, waiting, holding, call, enter, cancel, count_active,
  count_total, uncount, receive,
}
use crated.RateLimit.Sequential.{run, acquire-release, acquire_blocks_iff}
use crated.RateLimit.Interleaving.{
  System, acts, Reach, here, next, start, tally, holds, holding-le-capacity, idle_is_free,
}
use crated.RateLimit.Progress.{inside_completes}
use crated.Models.{
  ModelProvider, register_provider, ModelRegistry, Warning, new_model_registry, fill,
}
use crated.Models.Registry.{IsComplete, new_model_registry-IsComplete}

-- One slot, and a goroutine that holds it while another waits.
abbrev held : System
held = record {
  limiter = record { sem = 1; capacity = 1; active = 1; total = 1; dropped = 0 };
  threads = holding ∷ waiting ∷ [];
}

held-Reach : Reach (start (pos 1) 2) held
unfolding new act
held-Reach =
    next
      (next
        (next (next (next here (acts 1 call refl refl)) (acts 0 call refl refl))
          (acts 0 enter refl refl))
        (acts 0 count_active refl refl))
      (acts 0 count_total refl refl)

holding-le-capacity_example : (tally holds held.threads ≤ 1) × (held.limiter.active ≤ 1)
holding-le-capacity_example = holding-le-capacity (pos 1) 2 (omega arith) held-Reach

inside_completes_example :
    (m : Limiter) × (run (uncount ∷ receive ∷ []) holding held.limiter ≡ some (idle, m))
    × (m.sem + 1 ≡ 1)
inside_completes_example = inside_completes (pos 1) 2 0 holding (omega arith) held-Reach refl refl

abbrev freed : System
freed = record {
  limiter = record { sem = 0; capacity = 1; active = 0; total = 1; dropped = 1 };
  threads = idle ∷ idle ∷ [];
}

freed-Reach : Reach (start (pos 1) 2) freed
unfolding act
freed-Reach =
    next (next (next held-Reach (acts 1 cancel refl refl)) (acts 0 uncount refl refl))
      (acts 0 receive refl refl)

idle_is_free_example : (freed.limiter.sem ≡ 0) × (freed.limiter.active ≡ 0)
idle_is_free_example = idle_is_free (pos 1) 2 (omega arith) freed-Reach (refl, (refl, tt))

abbrev one_slot : Limiter
one_slot = record { sem = 0; capacity = 1; active = 0; total = 0; dropped = 0 }

abbrev taken : Limiter
taken = record { sem = 1; capacity = 1; active = 1; total = 1; dropped = 0 }

slot_taken : acquire one_slot none true ≡ some (taken, none)
unfolding acquire
slot_taken = refl

acquire-release_example : release taken ≡ some (record one_slot { total = increment64 0 })
acquire-release_example = acquire-release one_slot none true (omega arith) slot_taken

acquire_blocks_iff_example :
    (acquire taken none true ≡ none)
    ↔ ((taken.capacity ≤ taken.sem) × (◌≡◌ {A = Option Error} none none))
acquire_blocks_iff_example = acquire_blocks_iff taken none true

abbrev entry : String → ModelConfig
entry name = record {
  name = name;
  model = "openai/" <> name;
  temperature = none;
  max_tokens = none;
  top_p = none;
}

abbrev openai : ModelProvider String
openai = record { name = "openai"; create_model = λ id cc mc. ok id }

register_provider_run : register_provider openai [] ≡ ok (("openai", openai) ∷ [])
unfolding register_provider lookup insert
register_provider_run = refl

abbrev no_key : Error
no_key = errorf "OPENAI_API_KEY is not set" []

-- Only the model with this name has a key.
abbrev create : ModelConfig → Result String
create mc = if mc.name == "small" then ok mc.model else err no_key

abbrev small_only : ModelRegistry String
small_only = record { models = ("small", "openai/small") ∷ []; default_name = "small" }

abbrev big_skipped : List Warning
big_skipped = record { model = "big"; cause = no_key } ∷ []

registry_run :
    new_model_registry create "small" (entry "big" ∷ entry "small" ∷ [])
    ≡ ok (small_only, big_skipped)
unfolding new_model_registry fill insert
registry_run = refl

new_model_registry-IsComplete_example :
    IsComplete create "small" (entry "big" ∷ entry "small" ∷ []) small_only big_skipped
new_model_registry-IsComplete_example =
    new_model_registry-IsComplete create "small" (entry "big" ∷ entry "small" ∷ []) small_only
      big_skipped registry_run
