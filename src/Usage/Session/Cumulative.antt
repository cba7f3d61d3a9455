-- ===== src/Usage/Session/Cumulative.antt =====
-- A Codex session reports running totals: each token of them is counted in one event.
use hsin_rs.Prelude.{
  ℕ, ◌+◌, ◌==◌, true, false, Option, none, some, List, [], ◌∷◌, Text, Bool-cases, inl, inr,
  Option-cases, ◌≡◌, refl, arith, ◌∙◌,
}
use hsin_rs.Core.Usage.{UsageTokenSummary, total_tokens}
use hsin_rs.Usage.Event.{Json, UsageEvent, timestamp}
use hsin_rs.Usage.Tokens.{openai_tokens, has_reset, subtract_tokens}
use hsin_rs.Usage.Session.{
  CodexState, has_type, turn_model, usage_of, is_token_count, codex_event, token_count,
  parse_codex_session,
}

pub data Counter : Type 0 where
  input cache_write cache_read output : Counter

abbrev pub count : Counter → UsageTokenSummary → ℕ
count input t = t.input_tokens
count cache_write t = t.cache_write_tokens
count cache_read t = t.cache_read_tokens
count output t = t.output_tokens

count-subtract_tokens :
    (k : Counter) (u p : UsageTokenSummary)
    → has_reset u p ≡ false
    → count k (subtract_tokens u p) + count k p ≡ count k u
unfolding subtract_tokens
count-subtract_tokens input u p h = ground arith
count-subtract_tokens cache_write u p h = ground arith
count-subtract_tokens cache_read u p h = ground arith
count-subtract_tokens output u p h = ground arith

count_zero : (k : Counter) (t : UsageTokenSummary) → total_tokens t ≡ 0 → count k t ≡ 0
unfolding total_tokens
count_zero input t h = omega arith
count_zero cache_write t h = omega arith
count_zero cache_read t h = omega arith
count_zero output t h = omega arith

-- What was counted before: nothing, where no total is known.
abbrev pub count_before : Counter → Option UsageTokenSummary → ℕ
count_before k none = 0
count_before k (some p) = count k p

-- No count falls.
abbrev pub Rises : Option UsageTokenSummary → UsageTokenSummary → Type 0
Rises none u = Unit
Rises (some p) u = has_reset u p ≡ false

module _ (json : Json) where
  open json use {Value, Time, get}

  -- The tokens of the line itself: not given, or what the running total rose by.
  pub data Stepped (payload : Value) (p : Option UsageTokenSummary) (u : UsageTokenSummary)
      : Type 0 where
    from_total : usage_of json "last_token_usage" payload ≡ none → Stepped payload p u
    from_last :
        (last : Value)
        → usage_of json "last_token_usage" payload ≡ some last
        → ((k : Counter) → count k (openai_tokens json last) + count_before k p ≡ count k u)
        → Stepped payload p u

  -- A line that takes the running total from `p` to `u`, with the time.
  pub record IsTotal (value : Value) (p : Option UsageTokenSummary) (u : UsageTokenSummary)
      : Type 0 where
    pub not_meta : has_type json "session_meta" value ≡ false
    pub not_turn : turn_model json value ≡ none
    pub counts : is_token_count json value ≡ true
    pub payload : Value
    pub has_payload : get "payload" value ≡ some payload
    pub step : Stepped payload p u
    pub total : Value
    pub has_total : usage_of json "total_token_usage" payload ≡ some total
    pub reads : openai_tokens json total ≡ u
    pub rises : Rises p u
    pub at : Time
    pub timed : timestamp json value ≡ some at

  -- Lines whose totals never fall, from `p` before the first to `l` at the last, with lines of
  -- other kinds between them.
  pub data Rising : Option UsageTokenSummary → List Value → Option UsageTokenSummary → Type 0 where
    done : {p : Option UsageTokenSummary} → Rising p [] p
    then_other :
        {value : Value} {values : List Value} {p l : Option UsageTokenSummary}
        → is_token_count json value ≡ false
        → Rising p values l
        → Rising p (value ∷ values) l
    then_total :
        {value : Value} {values : List Value} {p : Option UsageTokenSummary} {u : UsageTokenSummary}
        {l : Option UsageTokenSummary}
        → IsTotal value p u
        → Rising (some u) values l
        → Rising p (value ∷ values) l

  abbrev cons_event : Option (UsageEvent Time) → List (UsageEvent Time) → List (UsageEvent Time)
  cons_event none es = es
  cons_event (some e) es = e ∷ es

  -- The events of the lines of a session.
  pub events : List Value → CodexState → List (UsageEvent Time)
  events [] s = []
  events (v ∷ vs) s =
      let (event, s') = parse_codex_session json v s in cons_event event (events vs s')

  pub billed : Counter → List (UsageEvent Time) → ℕ
  billed k [] = 0
  billed k (e ∷ es) = count k e.tokens + billed k es

  -- What a line with a running total gives.
  abbrev Counted : CodexState → Value → Option UsageTokenSummary → UsageTokenSummary → Type 0
  Counted s value p u =
      (d : UsageTokenSummary) × (token_count json value s
        ≡ (codex_event json s.model value d, record s { cumulative = some u }))
      × ((k : Counter) → count k d + count_before k p ≡ count k u)

  token_count-total :
      (s : CodexState) (value payload total : Value) (p : Option UsageTokenSummary)
      {u : UsageTokenSummary}
      → get "payload" value ≡ some payload
      → usage_of json "total_token_usage" payload ≡ some total
      → openai_tokens json total ≡ u
      → Rises p u
      → Stepped payload p u
      → s.cumulative ≡ p
      → Counted s value p u
  token_count-total s value payload total p has whole reads rises (from_last last e adds) c =
      (openai_tokens json last, rw (has, token_count) (rw e (rw whole (rw reads refl))), adds)
  token_count-total s value payload total none {u} has whole reads rises (from_total e) c =
      (u, rw (has, token_count) (rw e (rw whole (simp (c, reads)))), λ k. omega arith)
  token_count-total s value payload total (some p) {u} has whole reads rises (from_total e) c = (
    subtract_tokens u p,
    rw (has, token_count) (rw e (rw whole (simp (c, reads)))),
    λ k. count-subtract_tokens k u p rises,
  )

  parse_codex_session-total :
      (s : CodexState) {value : Value} {p : Option UsageTokenSummary} {u : UsageTokenSummary}
      → IsTotal value p u
      → parse_codex_session json value s ≡ token_count json value s
  unfolding parse_codex_session
  parse_codex_session-total s t = rw (t.not_meta) (rw (t.not_turn) (rw (t.counts) refl))

  -- A line of another kind has no event and leaves the running total.
  parse_codex_session-other :
      (s : CodexState) (value : Value)
      → is_token_count json value ≡ false
      → ((parse_codex_session json value s).0 ≡ none)
        × ((parse_codex_session json value s).1.cumulative ≡ s.cumulative)
  unfolding parse_codex_session
  parse_codex_session-other s value h = elim (Bool-cases (has_type json "session_meta" value)) [
    | inl e ↦ rw e (refl, refl)
    | inr e ↦ elim (Option-cases (turn_model json value)) [
      | inl n ↦ rw e (rw n (rw h (refl, refl)))
      | inr (m, t) ↦ rw e (rw t (refl, refl))
    ]
  ]

  billed-codex_event :
      (k : Counter) (model : Text) (value : Value) {at : Time} (t : UsageTokenSummary)
      (es : List (UsageEvent Time))
      → timestamp json value ≡ some at
      → billed k (cons_event (codex_event json model value t) es) ≡ count k t + billed k es
  unfolding billed
  billed-codex_event k model value t es h = elim (Bool-cases (total_tokens t == 0)) [
    | inl e ↦ rw e (let z = count_zero k t (ground arith) in omega arith)
    | inr e ↦ rw e (rw h refl)
  ]

  -- Over the lines of a Codex session, where each line of token counts has a time and a running
  -- total no count of which is below the last one's, and the line's own tokens, if it gives them, are
  -- what that total rose by: the input, the cache write, the cache read and the output tokens of the
  -- events each add up to what the running total rose by, from nothing where none was known.
  pub billed-events :
      (k : Counter) (s : CodexState) {values : List Value} {p l : Option UsageTokenSummary}
      → Rising p values l
      → s.cumulative ≡ p
      → billed k (events values s) + count_before k p ≡ count_before k l
  unfolding events billed
  billed-events k s done c = omega arith
  billed-events k s (then_other {value} {values} other rest) c =
      let (silent, kept) = parse_codex_session-other s value other in
      rw silent (billed-events k (parse_codex_session json value s).1 rest (kept ∙ c))
  billed-events k s (then_total {value} {values} {p} {u} t rest) c =
      let next = record s { cumulative = some u } in
      let (d, made, adds) =
        token_count-total s value t.payload t.total p t.has_payload t.has_total t.reads t.rises
          t.step c in
      let this = billed-codex_event k s.model value d (events values next) t.timed in
      let later = billed-events k next rest refl in
      rw (parse_codex_session-total s t) (rw made (omega (arith, this, later, adds k)))
