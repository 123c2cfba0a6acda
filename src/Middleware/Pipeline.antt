-- ===== src/Middleware/Pipeline.antt =====
-- A model of internal/runtime/models.go with both its decorators.
use crated.Prelude.{
  ◌<◌, Bool, String, List, [], ◌∷◌, Option, none, some, Error, wrapf, str, Yield, feed, ◌≡◌, ◌⊎◌,
  arith, int64_mod, ap, ◌∙◌, ◌-◌, decrement64, inl, inr, Option-cases,
}
use crated.Genai.{LlmRequest, Item, fail}
use crated.RateLimit.{Limiter, acquire, release}
use crated.Middleware.{LogEntry, with_logging, limited, generate_decorated}
use crated.Middleware.Transparency.{with_logging_transparent}

module _ {S : Type 0} (yield : Yield S Item) where
  -- What is left of the limiter behind a request that was let through.
  abbrev pub IsBalanced : Limiter → Limiter → Type 0
  IsBalanced l m =
      (m.sem ≡ l.sem) × (m.active ≡ l.active) × (m.capacity ≡ l.capacity) × (m.dropped ≡ l.dropped)

  limited-through :
      {T : Type 0} (name : String) (l m : Limiter) (canceled : Option Error) (prefer : Bool)
      (run : T) (refuse : Error → T)
      → l.active < int64_mod
      → acquire l canceled prefer ≡ some (m, none)
      → (m' : Limiter) × (limited name l canceled prefer run refuse ≡ some (run, m'))
        × IsBalanced l m'
  unfolding limited acquire release
  limited-through name l m canceled prefer run refuse bound h = (
    record m { active = decrement64 m.active; sem = m.sem - 1 },
    ground arith,
    (ground arith, ground arith, ground arith, ground arith),
  )

  -- Where Acquire lets a request through, the consumer gets the items of the provider's model as they
  -- are, up to the one on which it leaves, the log is that of the logging decorator, Release does not
  -- block, and the limiter is as before but for its total. Where Acquire fails, the consumer gets one
  -- item, the error, and the model is not asked: nothing is logged.
  pub generate_decorated-transparent :
      (name : String) (l m : Limiter) (canceled denied : Option Error) (prefer : Bool)
      (req : LlmRequest) (streaming : Bool) (items : List Item) (s : S)
      → l.active < int64_mod
      → acquire l canceled prefer ≡ some (m, denied)
      → ((m' : Limiter) × (denied ≡ none)
          × (generate_decorated yield name l canceled prefer req streaming items s
              ≡ some (((feed yield s items).0, (with_logging yield req streaming items s).1), m'))
          × IsBalanced l m')
        ⊎ ((e : Error) × (denied ≡ some e)
            × (generate_decorated yield name l canceled prefer req streaming items s
                ≡ some (
                  (
                    (yield s
                        (fail (wrapf "rate limit exceeded for model %s: %w" (str name ∷ []) e))).0,
                    [],
                  ),
                  m,
                )))
  unfolding generate_decorated
  generate_decorated-transparent name l m canceled denied prefer req streaming items s bound h =
      elim (Option-cases denied) [
        | inl through ↦
            let log = with_logging yield req streaming items s in
            let refuse : Error → S × List LogEntry = λ e. ((yield s (fail e)).0, []) in
            let (m', done, balanced) =
              limited-through name l m canceled prefer log refuse bound
                (h ∙ ap (λ d. some (m, d)) through) in
            inl (
              m',
              through,
              done
                  ∙ ap (λ t. some ((t, log.1), m'))
                      (with_logging_transparent yield req streaming items s),
              balanced,
            )
        | inr (e, refused) ↦ inr (e, refused, ground arith)
      ]
