-- ===== src/Status/Sequence.antt =====
-- CoreStatusMonitor.cpp and CoreManager.cpp: the order of the statuses that the cloud is told.
use Prim.Native.String.{String}
use mathlib.Core.Path.{subst}
use synergy_hogsback.Prelude.{
  ◌≡◌, refl, Bool, true, false, not, ◌&&◌, ◌||◌, if◌then◌else◌, List, [], ◌∷◌, All, arith, if-cases,
}
use synergy_hogsback.Profile.Config.{ScreenStatus, connected, connecting, disconnected, inactive}
use synergy_hogsback.Core.Process.{ProcessMode, client_mode, server_mode, unknown_mode}
use synergy_hogsback.Status.Report.{
  Handler, handlers, Reporter, same_status, status_changed, update_status, monitor, process_started,
  hear_line, Input, starts, output, run,
}

-- The status that was told last, or the one at first.
abbrev pub newest : ScreenStatus → List ScreenStatus → ScreenStatus
newest first [] = first
newest first (s ∷ rest) = s

-- The new status differs from the old one, and disconnected comes after connected only.
abbrev pub is_step : ScreenStatus → ScreenStatus → Bool
is_step old new =
    not (same_status old new) && (not (same_status new disconnected) || same_status old connected)

-- Each status, the latest first, is such a step from the one before.
unfoldable pub IsSequence : ScreenStatus → List ScreenStatus → Type 0
IsSequence first [] = Unit
IsSequence first (s ∷ rest) = (is_step (newest first rest) s ≡ true) × IsSequence first rest

abbrev IsActive : ScreenStatus → Type 0
IsActive s = same_status s inactive ≡ false

record IsFaithful (first : ScreenStatus) (r : Reporter) : Type 0 where
  told_latest : r.profile_status ≡ newest first r.told
  sequence : IsSequence first r.told
  agrees :
      same_status r.profile_status connected ≡ true → same_status r.screen_state connected ≡ true
  handlers_active : All (λ (h : Handler). IsActive h.1) r.signals

sends_step :
    (status state profile : ScreenStatus)
    → IsActive status
    → (same_status profile connected ≡ true → same_status state connected ≡ true)
    → not (same_status status state) ≡ true
    → (same_status profile status && same_status status connecting) ≡ false
    → (same_status status disconnected && not (same_status profile connected)) ≡ false
    → is_step profile status ≡ true
sends_step status state profile a h d e f = ground arith

update_status-IsFaithful :
    (first status : ScreenStatus) (r : Reporter)
    → IsActive status
    → IsFaithful first r
    → IsFaithful first (update_status status r)
unfolding update_status status_changed IsSequence
update_status-IsFaithful first status r a h =
    let sent : Reporter = record r {
      screen_state = status;
      profile_status = status;
      told = status ∷ r.told;
    } in
    if-cases (IsFaithful first) (not (same_status status r.screen_state))
      (λ d.
        if-cases (IsFaithful first)
          (same_status r.profile_status status && same_status status connecting)
          (λ e. record {
            told_latest = h.told_latest;
            sequence = h.sequence;
            agrees = λ c. ground (arith, c, e, h.agrees);
            handlers_active = h.handlers_active;
          })
          (λ e.
            if-cases {y = sent} (IsFaithful first)
              (same_status status disconnected && not (same_status r.profile_status connected))
              (λ f. record {
                told_latest = h.told_latest;
                sequence = h.sequence;
                agrees = λ c. ground (arith, c, f);
                handlers_active = h.handlers_active;
              })
              (λ f. record {
                told_latest = refl;
                sequence = (
                  subst (λ p. is_step p status ≡ true) h.told_latest
                      (sends_step status r.screen_state r.profile_status a h.agrees d e f),
                  h.sequence,
                );
                agrees = λ c. c;
                handlers_active = h.handlers_active;
              })))
      (λ d. record {
        told_latest = h.told_latest;
        sequence = h.sequence;
        agrees = λ c. ground (arith, d, h.agrees c);
        handlers_active = h.handlers_active;
      })

handlers-IsActive : (mode : ProcessMode) → All (λ (h : Handler). IsActive h.1) (handlers mode)
handlers-IsActive client_mode = (refl, (refl, (refl, tt)))
handlers-IsActive server_mode = (refl, tt)
handlers-IsActive unknown_mode = tt

started-IsFaithful :
    (first : ScreenStatus) (mode : ProcessMode) (r : Reporter)
    → IsFaithful first r
    → IsFaithful first (process_started mode r)
unfolding process_started monitor
started-IsFaithful first mode r h =
    let k = update_status-IsFaithful first connecting r refl h in
    record {
      told_latest = k.told_latest;
      sequence = k.sequence;
      agrees = k.agrees;
      handlers_active = handlers-IsActive mode;
    }

module _ (includes : String → String → Bool) (first : ScreenStatus) where
  hear_line-IsFaithful :
      (line : String) (hs : List Handler) (r : Reporter)
      → All (λ (h : Handler). IsActive h.1) hs
      → IsFaithful first r
      → IsFaithful first (hear_line includes line hs r)
  unfolding hear_line
  hear_line-IsFaithful line [] r a h = h
  hear_line-IsFaithful line (g ∷ gs) r a h =
      hear_line-IsFaithful line gs (if not (includes line g.0) then r else update_status g.1 r) a.1
        (if-cases (IsFaithful first) (not (includes line g.0)) (λ e. h)
          (λ e. update_status-IsFaithful first g.1 r a.0 h))

  run-IsFaithful :
      (inputs : List Input) (r : Reporter)
      → IsFaithful first r
      → IsFaithful first (run includes inputs r)
  unfolding run
  run-IsFaithful [] r h = h
  run-IsFaithful (starts mode ∷ more) r h =
      run-IsFaithful more (process_started mode r) (started-IsFaithful first mode r h)
  run-IsFaithful (output line ∷ more) r h =
      run-IsFaithful more (hear_line includes line r.signals r)
        (hear_line-IsFaithful line r.signals r h.handlers_active h)

  abbrev pub new_reporter : Reporter
  new_reporter = record {
    signals = [];
    screen_state = connected;
    profile_status = first;
    told = [];
  }

  -- Whatever the core process prints and however often it is started, as long as nothing else changes
  -- the status in the profile, each status that the cloud is told differs from the one before, and
  -- disconnected comes right after connected only.
  pub run-IsSequence :
      (inputs : List Input) → IsSequence first (run includes inputs new_reporter).told
  unfolding IsSequence
  run-IsSequence inputs =
      (run-IsFaithful inputs new_reporter (record {
        told_latest = refl;
        sequence = tt;
        agrees = λ c. refl;
        handlers_active = tt;
      })).sequence
