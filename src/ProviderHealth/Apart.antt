-- ===== src/ProviderHealth/Apart.antt =====
-- What is reported of one market of a venue leaves the records of all others alone.
use Prim.Native.String.{String}
use text.Mathlib.Text.{◌==◌ as str_eq}
use text.Mathlib.TextEquality.{eq_iff}
use buy_not_buy_com.Breaker.{BreakerState}
use buy_not_buy_com.Common.{
  ℕ, ◌≡◌, refl, ap, Bool, ◌&&◌, ◌∙◌, ◌↔◌, true, Option, some, List, [], ◌∷◌, filter, if◌then◌else◌,
  Bool-cases, inl, inr, arith,
}
use buy_not_buy_com.ProviderHealth.{
  Normaliser, ProviderFailureReport, ProviderRecord, Key, key_eq, Records, find, put, record_for,
  or_empty, record_key, record_provider_success, record_provider_failure,
  record_provider_rate_limit, provider_health, provider_health_state, succeeded, failed, throttled,
}

pub data Report : Type 0 where
  success : String → String → ℕ → ℕ → Option ℕ → Report
  failure : String → String → ℕ → ProviderFailureReport → Report
  rate_limit : String → String → ℕ → ℕ → ℕ → Option ℕ → Report

pub key_eq_iff : (k j : Key) → (key_eq k j ≡ true) ↔ (k ≡ j)
key_eq_iff (a, b) (c, d) = ground (arith, eq_iff a c, eq_iff b d)

pub find-put :
    (new asked : Key) (r : ProviderRecord) (records : Records)
    → find asked (put new r records) ≡ (if key_eq new asked then some r else find asked records)
unfolding find put
find-put new asked r [] = refl
find-put new asked r ((key, old) ∷ rest) = ground (
  arith,
  key_eq_iff key new,
  key_eq_iff key asked,
  key_eq_iff new asked,
  find-put new asked r rest,
)

find-record_for :
    (key asked : Key) (change : ProviderRecord → ProviderRecord) (a b : Records)
    → find asked a ≡ find asked b
    → find asked (record_for key change a)
      ≡ (if key_eq key asked then find asked (record_for key change b) else find asked b)
unfolding record_for
find-record_for key asked change a b same = ground (
  arith,
  key_eq_iff key asked,
  find-put key asked (change (or_empty (find key a))) a,
  find-put key asked (change (or_empty (find key b))) b,
)

-- The venue's name up to case, and the market's up to case and the space around it.
abbrev pub names_market : Normaliser → String → String → String → String → Bool
names_market n provider market p m =
    str_eq (n.to_lower_case p) (n.to_lower_case provider)
    && str_eq (n.trim_to_upper_case m) (n.trim_to_upper_case market)

module _ (n : Normaliser) where
  unfoldable pub apply : Report → Records → Records
  unfolding record_provider_success record_provider_failure record_provider_rate_limit
  apply (success p m now latency status) records =
      record_provider_success n p m now latency status records
  apply (failure p m now report) records = record_provider_failure n p m now report records
  apply (rate_limit p m now again retry_after status) records =
      record_provider_rate_limit n p m now again retry_after status records

  unfoldable pub apply_all : List Report → Records → Records
  apply_all [] records = records
  apply_all (report ∷ reports) records = apply_all reports (apply report records)

  abbrev pub key_of : Report → Key
  unfolding record_key
  key_of (success p m now latency status) = record_key n p m
  key_of (failure p m now report) = record_key n p m
  key_of (rate_limit p m now again retry_after status) = record_key n p m

  find-apply :
      (k : Key) (report : Report) (a b : Records)
      → find k a ≡ find k b
      → find k (apply report a)
        ≡ (if key_eq (key_of report) k then find k (apply report b) else find k b)
  unfolding apply
  find-apply k (success p m now latency status) a b same =
      find-record_for _ k (succeeded now latency status) a b same
  find-apply k (failure p m now report) a b same = find-record_for _ k (failed now report) a b same
  find-apply k (rate_limit p m now again retry_after status) a b same =
      find-record_for _ k (throttled now again retry_after status) a b same

  -- A report about the market of the venue, by the names that the report itself carries.
  abbrev pub is_about : String → String → Report → Bool
  is_about provider market (success p m now latency status) = names_market n provider market p m
  is_about provider market (failure p m now report) = names_market n provider market p m
  is_about provider market (rate_limit p m now again retry_after status) =
      names_market n provider market p m

  is_about-key_of :
      (provider market : String) (report : Report)
      → key_eq (key_of report) (record_key n provider market) ≡ is_about provider market report
  unfolding record_key
  is_about-key_of provider market (success p m now latency status) = refl
  is_about-key_of provider market (failure p m now report) = refl
  is_about-key_of provider market (rate_limit p m now again retry_after status) = refl

  filter-is_about :
      (provider market : String) (reports : List Report)
      → filter (λ r. key_eq (key_of r) (record_key n provider market)) reports
        ≡ filter (is_about provider market) reports
  filter-is_about provider market [] = refl
  filter-is_about provider market (report ∷ reports) =
      rw (is_about-key_of provider market report, filter-is_about provider market reports) refl

  find-apply_all :
      (k : Key) (reports : List Report) (a b : Records)
      → find k a ≡ find k b
      → find k (apply_all reports a)
        ≡ find k (apply_all (filter (λ r. key_eq (key_of r) k) reports) b)
  unfolding apply_all
  find-apply_all k [] a b same = same
  find-apply_all k (report ∷ reports) a b same =
      let changed = find-apply k report a b same in
      elim (Bool-cases (key_eq (key_of report) k)) [
        | inl about ↦
            rw about
              (find-apply_all k reports (apply report a) (apply report b) (changed ∙ rw about refl))
        | inr other ↦
            rw other (find-apply_all k reports (apply report a) b (changed ∙ rw other refl))
      ]

  provider_health-find :
      (after now : ℕ) (provider market : String) (circuit : BreakerState) (a b : Records)
      → find (record_key n provider market) a ≡ find (record_key n provider market) b
      → provider_health n after provider market circuit now a
        ≡ provider_health n after provider market circuit now b
  unfolding provider_health provider_health_state
  provider_health-find after now provider market circuit a b same = rw same refl

  -- Two sets of records from which a market of a venue reads the same record: after any reports on the
  -- one, and the reports that name this venue and this market alone on the other, the health of that
  -- market reads the same, at any time and in any state of the breaker, whatever was reported in between
  -- of other venues and of the venue's other markets.
  pub records_apart :
      (provider market : String) (reports : List Report) (a b : Records)
      → find (n.to_lower_case provider, n.trim_to_upper_case market) a
        ≡ find (n.to_lower_case provider, n.trim_to_upper_case market) b
      → (after now : ℕ) (circuit : BreakerState)
      → provider_health n after provider market circuit now (apply_all reports a)
        ≡ provider_health n after provider market circuit now
            (apply_all (filter (is_about provider market) reports) b)
  unfolding record_key
  records_apart provider market reports a b same after now circuit =
      let k = record_key n provider market in
      provider_health-find after now provider market circuit (apply_all reports a)
        (apply_all (filter (is_about provider market) reports) b)
        (find-apply_all k reports a b same
          ∙ ap (λ rs. find k (apply_all rs b)) (filter-is_about provider market reports))
