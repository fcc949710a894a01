-- ===== src/Dlt/Window.antt =====
-- The log window of a dead-lettered record, src/dlt/window.py. Times are milliseconds from the
-- epoch; a start or an age that would be negative is 0.
mod Examples
use agentic_resident_crm.Prelude.{
  ℕ, ◌+◌, ◌-◌, ◌*◌, ◌≤◌, Bool, true, false, Option, none, some, if◌then◌else◌, leb, ltb, max, ◌≡◌,
  refl, ap, sym, ◌∙◌, arith, Bool-cases, inl, inr,
}

-- The timestamps of a record's headers.
pub record DltTimes : Type 0 where
  pub backoff_timestamp_ms : Option ℕ
  pub retry_original_timestamp_ms : Option ℕ
  pub original_timestamp_ms : Option ℕ

pub record WindowSettings : Type 0 where
  pub lead_seconds : ℕ
  pub trail_seconds : ℕ
  pub max_age_seconds : ℕ

pub record LogWindow : Type 0 where
  pub anchor_ms : ℕ
  pub start_ms : ℕ
  pub end_ms : ℕ
  pub too_old : Bool
  pub anchor_is_fallback : Bool
  pub age_ms : ℕ

abbrev pub fallback : Option ℕ → Option ℕ → Option (ℕ × Bool)
fallback none none = none
fallback none (some t) = some (t, true)
fallback (some t) original = some (t, true)

unfoldable pub select_anchor : DltTimes → ℕ → Option (ℕ × Bool)
select_anchor times now = by_backoff times.backoff_timestamp_ms
  where
    by_backoff : Option ℕ → Option (ℕ × Bool)
    by_backoff none = fallback times.retry_original_timestamp_ms times.original_timestamp_ms
    by_backoff (some t) =
        if leb t now
        then some (t, false)
        else fallback times.retry_original_timestamp_ms times.original_timestamp_ms

module _ (settings : WindowSettings) where
  abbrev pub window_at : ℕ → Option (ℕ × Bool) → Option LogWindow
  window_at now none = none
  window_at now (some (anchor, is_fallback)) =
      let start = anchor - settings.lead_seconds * 1000 in
      some (record {
        anchor_ms = anchor;
        start_ms = start;
        end_ms = anchor + settings.trail_seconds * 1000;
        too_old = ltb (settings.max_age_seconds * 1000) (now - start);
        anchor_is_fallback = is_fallback;
        age_ms = now - start;
      })

  unfoldable pub derive_window : DltTimes → ℕ → Option LogWindow
  derive_window times now = window_at now (select_anchor times now)

  -- The look-back of `to_time_window`.
  abbrev pub lookback_ms : LogWindow → ℕ → ℕ
  lookback_ms window now =
      max (now - window.start_ms) ((settings.lead_seconds + settings.trail_seconds) * 1000)

  -- A window holds its anchor, the look-back from now reaches its start, an anchor that is no fallback
  -- is not in the future, and a window that is not too old starts within the age allowed.
  abbrev pub IsWindow : ℕ → Option LogWindow → Type 0
  IsWindow now none = Unit
  IsWindow now (some w) =
      (w.start_ms ≤ w.anchor_ms)
      × (w.anchor_ms ≤ w.end_ms)
      × (now ≤ w.start_ms + lookback_ms w now)
      × (w.anchor_is_fallback ≡ false → w.anchor_ms ≤ now)
      × (w.too_old ≡ false → now ≤ w.start_ms + settings.max_age_seconds * 1000)

  window_at-IsWindow :
      (now anchor : ℕ) (is_fallback : Bool)
      → (is_fallback ≡ false → anchor ≤ now)
      → IsWindow now (window_at now (some (anchor, is_fallback)))
  window_at-IsWindow now anchor is_fallback past =
      (omega arith, omega arith, omega arith, past, λ h. ground (arith, h))

  fallback-IsWindow :
      (now : ℕ) (retried original : Option ℕ)
      → IsWindow now (window_at now (fallback retried original))
  fallback-IsWindow now none none = tt
  fallback-IsWindow now none (some t) =
      window_at-IsWindow now t true (λ h. absurd (ground (arith, h)))
  fallback-IsWindow now (some t) original =
      window_at-IsWindow now t true (λ h. absurd (ground (arith, h)))

  -- A window that is derived holds its anchor, and the look-back from now reaches its start; its
  -- anchor is not in the future unless it is marked as a fallback; and if the window is not too old it
  -- starts within the age allowed.
  pub derive_window-IsWindow : (times : DltTimes) (now : ℕ) → IsWindow now (derive_window times now)
  unfolding derive_window select_anchor
  derive_window-IsWindow times now = by_backoff times.backoff_timestamp_ms refl
    where
      by_backoff :
          (backoff : Option ℕ)
          → times.backoff_timestamp_ms ≡ backoff
          → IsWindow now (derive_window times now)
      by_backoff none e =
          rw e (fallback-IsWindow now times.retry_original_timestamp_ms times.original_timestamp_ms)
      by_backoff (some t) e = elim (Bool-cases (leb t now)) [
        | inl past ↦ rw (e, past) (window_at-IsWindow now t false (λ _. ground (arith, past)))
        | inr ahead ↦
            rw (e, ahead)
              (fallback-IsWindow now times.retry_original_timestamp_ms times.original_timestamp_ms)
      ]
