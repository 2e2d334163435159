-- ===== src/Execution/Metadata.antt =====
-- src/sentum/trader/execution/ExchangeMetadataCache.hpp: the rules per symbol, kept for a while. The answer
-- of the exchange is an argument, and `now` the reading of the steady clock.
use sentum.Prelude.{
  ℕ, ◌≡◌, refl, ◌⊎◌, inl, inr, String, true, Option, none, some, [], if◌then◌else◌, arith, ap, ◌∙◌,
  if-elim,
}
use sentum.Prelude.Dict.{Dict, lookup, insert, erase, lookup-insert_self}
use sentum.Clock.{younger_than}
use sentum.Float.{Double}
use sentum.Order.Manager.{Result, ok, throw}
use sentum.Execution.Rules.{ExchangeRules, InfoDocument, from_exchange_info}

pub record Entry (W : Type 0) : Type 0 where
  pub rules : ExchangeRules W
  pub loaded_at : ℕ

pub record MetadataCache (W : Type 0) : Type 0 where
  pub ttl : ℕ
  pub entries : Dict (Entry W)

module _ {W : Type 0} where
  abbrev pub invalidate : MetadataCache W → String → MetadataCache W
  invalidate c symbol = record c { entries = erase symbol c.entries }

  abbrev pub clear : MetadataCache W → MetadataCache W
  clear c = record c { entries = [] }

module _ {J W : Type 0} ⦃d : Double W⦄ (doc : InfoDocument J W) where
  -- The rules that were read from the exchange, which the cache keeps.
  unfoldable pub keep :
      MetadataCache W
      → String
      → ℕ
      → Result (ExchangeRules W)
      → MetadataCache W × Result (ExchangeRules W)
  keep c symbol now (throw e) = (c, throw e)
  keep c symbol now (ok rules) = (
    record c { entries = insert symbol (record { rules = rules; loaded_at = now }) c.entries },
    ok rules,
  )

  -- The answer from the entry that was found, if it is young enough, and from the exchange otherwise.
  unfoldable pub serve :
      MetadataCache W
      → String
      → ℕ
      → Result (ExchangeRules W)
      → Option (Entry W)
      → MetadataCache W × Result (ExchangeRules W)
  serve c symbol now answer none = keep c symbol now answer
  serve c symbol now answer (some entry) =
      if younger_than now entry.loaded_at c.ttl
      then (c, ok entry.rules)
      else keep c symbol now answer

  -- `info` is what the exchange answers, if it is asked.
  unfoldable pub rules :
      MetadataCache W → String → ℕ → J → MetadataCache W × Result (ExchangeRules W)
  rules c symbol now info =
      serve c symbol now (from_exchange_info doc info symbol) (lookup symbol c.entries)

  -- What holds where the rules come from the cache, and where they come from the exchange.
  abbrev pub Current :
      MetadataCache W
      → String
      → ℕ
      → J
      → MetadataCache W × Result (ExchangeRules W)
      → ExchangeRules W
      → Type 0
  Current c symbol now info (after, result) r =
      ((entry : Entry W) × (lookup symbol c.entries ≡ some entry)
        × (younger_than now entry.loaded_at c.ttl ≡ true)
        × (entry.rules ≡ r)
        × (after ≡ c))
      ⊎ ((from_exchange_info doc info symbol ≡ ok r)
          × (lookup symbol after.entries ≡ some (record { rules = r; loaded_at = now })))

  keep-Current :
      (c : MetadataCache W) (symbol : String) (now : ℕ) (info : J)
      (answer : Result (ExchangeRules W)) (r : ExchangeRules W)
      → from_exchange_info doc info symbol ≡ answer
      → (keep c symbol now answer).1 ≡ ok r
      → Current c symbol now info (keep c symbol now answer) r
  unfolding keep
  keep-Current c symbol now info (throw e) r from h = absurd (ground (arith, h))
  keep-Current c symbol now info (ok rules) r from h =
      let same : rules ≡ r = ground (arith, h) in
      inr (
        from ∙ h,
        lookup-insert_self symbol (record { rules = rules; loaded_at = now }) c.entries
            ∙ ap (λ x. some (record { rules = x; loaded_at = now })) same,
      )

  serve-Current :
      (c : MetadataCache W) (symbol : String) (now : ℕ) (info : J) (found : Option (Entry W))
      (r : ExchangeRules W)
      → lookup symbol c.entries ≡ found
      → (serve c symbol now (from_exchange_info doc info symbol) found).1 ≡ ok r
      → Current c symbol now info (serve c symbol now (from_exchange_info doc info symbol) found) r
  unfolding serve
  serve-Current c symbol now info none r found h =
      keep-Current c symbol now info (from_exchange_info doc info symbol) r refl h
  serve-Current c symbol now info (some entry) r found h =
      let answer = from_exchange_info doc info symbol in
      let Fine : MetadataCache W × Result (ExchangeRules W) → Type 0 =
        λ o. o.1 ≡ ok r → Current c symbol now info o r in
      let either : Fine (serve c symbol now answer (some entry)) =
        if-elim Fine (younger_than now entry.loaded_at c.ttl)
          (λ young k. inl (entry, found, young, ground (arith, k), refl))
          (λ _ k. keep-Current c symbol now info answer r refl k) in
      either h

  -- Rules that are given out are either those of a cache entry that is younger than the limit, and the cache
  -- stays as it is, or those that the exchange answers now, and the cache then has them with this time.
  pub rules-Current :
      (c : MetadataCache W) (symbol : String) (now : ℕ) (info : J) (r : ExchangeRules W)
      → (rules c symbol now info).1 ≡ ok r
      → Current c symbol now info (rules c symbol now info) r
  unfolding rules
  rules-Current c symbol now info r h =
      serve-Current c symbol now info (lookup symbol c.entries) r refl h
