-- ===== src/Dlt/Window/Examples.antt =====
-- A log window at concrete times (src/dlt/window.py).
use agentic_resident_crm.Prelude.{some, true, false, ◌≡◌, refl}
use agentic_resident_crm.Dlt.Window.{
  DltTimes, WindowSettings, IsWindow, derive_window, derive_window-IsWindow, select_anchor,
}

abbrev settings : WindowSettings
settings = record { lead_seconds = 300; trail_seconds = 120; max_age_seconds = 86400 }

-- The next retry is still to come.
abbrev times : DltTimes
times = record {
  backoff_timestamp_ms = some 9000000;
  retry_original_timestamp_ms = some 5000000;
  original_timestamp_ms = some 4000000;
}

fell_back :
    derive_window settings times 8000000
    ≡ some (record {
      anchor_ms = 5000000;
      start_ms = 4700000;
      end_ms = 5120000;
      too_old = false;
      anchor_is_fallback = true;
      age_ms = 3300000;
    })
unfolding derive_window select_anchor
fell_back = refl

derive_window-IsWindow_example : IsWindow settings 8000000 (derive_window settings times 8000000)
derive_window-IsWindow_example = derive_window-IsWindow settings times 8000000
