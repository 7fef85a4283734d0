-- ===== src/Core/Kept.antt =====
-- CoreProcess.cpp: an owner that is there before the handlers are polled, and after.
use mathlib.Core.Path.{subst}
use synergy_hogsback.Prelude.{
  ℕ, ◌==◌, ◌≡◌, refl, ◌∙◌, true, false, not, ◌&&◌, ◌||◌, List, [], ◌∷◌, ◌++◌, Option, none, some,
  arith, any, any-append, if-cases,
}
use synergy_hogsback.Prelude.Int.{ℤ}
use synergy_hogsback.Core.Process.{
  CoreProcessImpl, CoreProcess, Event, claimed, Outcome, is_dangling, uses_dangling, done,
  with_owner, polling, terminate, reset, reset_events, caught,
}
use synergy_hogsback.Core.Manager.{◌>>◌}

-- Is the owner the one at this address?
abbrev pub IsAt : ℕ → Option CoreProcessImpl → Type 0
IsAt a none = true ≡ false
IsAt a (some i) = i.address ≡ a

-- If there was an owner, the same one is there.
abbrev pub Remains : Option CoreProcessImpl → Option CoreProcessImpl → Type 0
Remains none after = Unit
Remains (some i) after = IsAt i.address after

-- No owner was used that was gone, and unless the call threw, the owner before it remains.
pub record Kept (before : Option CoreProcessImpl) (out : Outcome) : Type 0 where
  pub sound : uses_dangling out ≡ false
  pub remains : out.threw ≡ false → Remains before out.core.impl

abbrev pub IsKept : CoreProcess → Outcome → Type 0
IsKept c out = Kept c.impl out

Remains-self : (o : Option CoreProcessImpl) → Remains o o
Remains-self none = tt
Remains-self (some i) = refl

pub Remains-trans : (a b c : Option CoreProcessImpl) → Remains a b → Remains b c → Remains a c
Remains-trans none b c h k = tt
Remains-trans (some i) none c h k = absurd (ground (arith, h))
Remains-trans (some i) (some j) none h k = k
Remains-trans (some i) (some j) (some l) h k = k ∙ h

pub after_sound :
    (xs ys : List Event)
    → any is_dangling xs ≡ false
    → any is_dangling ys ≡ false
    → any is_dangling (xs ++ ys) ≡ false
after_sound xs ys h k = any-append is_dangling xs ys ∙ rw h k

pub reset_sound : (o : Option CoreProcessImpl) → any is_dangling (reset_events o) ≡ false
unfolding reset_events
reset_sound none = refl
reset_sound (some i) =
    if-cases (λ es. any is_dangling es ≡ false) i.has_process (λ _. refl) (λ _. refl)

pub caught-Kept : (o : Option CoreProcessImpl) (out : Outcome) → Kept o out → Kept o (caught out)
unfolding reset
caught-Kept o out h =
    if-cases (Kept o) (out.threw && not (uses_dangling out))
      (λ bad. record {
        sound = after_sound out.events _ h.sound (reset_sound out.core.impl);
        remains = λ good. absurd (ground arith);
      })
      (λ good. h)

pub claimed-Kept :
    (o : Option CoreProcessImpl) (n : ℤ) (out : Outcome)
    → Kept o out
    → Kept o (out >> λ after. done after (claimed n ∷ []))
claimed-Kept o n out h =
    if-cases (Kept o) out.threw (λ _. h)
      (λ good. record {
        sound = after_sound out.events _ h.sound refl;
        remains = λ _. h.remains good;
      })

-- What is polled keeps the owner, so that the rest of the call finds it.
pub polling_sound :
    (i : CoreProcessImpl) (out : Outcome) (f : CoreProcess → CoreProcessImpl → Outcome)
    → Kept (some i) out
    → ((d : CoreProcess) (j : CoreProcessImpl) → uses_dangling (f d j) ≡ false)
    → uses_dangling (polling out i.address f) ≡ false
polling_sound i out f h k =
    if-cases (λ (o : Outcome). uses_dangling o ≡ false) out.threw (λ _. h.sound)
      (λ good. after_sound out.events _ h.sound (found out.core.impl (h.remains good)))
  where
    found :
        (o : Option CoreProcessImpl)
        → IsAt i.address o
        → uses_dangling (with_owner i.address f out.core o) ≡ false
    found none e = absurd (ground (arith, e))
    found (some j) e =
        if-cases (λ (o : Outcome). uses_dangling o ≡ false) (j.address == i.address)
          (λ _. k out.core j) (λ other. absurd (ground (arith, e)))

pub polling-Kept :
    (i : CoreProcessImpl) (out : Outcome)
    → Kept (some i) out
    → Kept (some i) (polling out i.address terminate)
polling-Kept i out h = record {
  sound =
      polling_sound i out terminate h (λ d j.
        if-cases (λ e. is_dangling e || false ≡ false) j.has_process (λ _. refl) (λ _. refl));
  remains =
      if-cases (λ (o : Outcome). o.threw ≡ false → IsAt i.address o.core.impl) out.threw
        (λ _. h.remains) (λ good _. found out.core.impl (h.remains good));
}
  where
    found :
        (o : Option CoreProcessImpl)
        → IsAt i.address out.core.impl
        → IsAt i.address (with_owner i.address terminate out.core o).core.impl
    found none e = e
    found (some j) e =
        if-cases (λ (o : Outcome). IsAt i.address o.core.impl) (j.address == i.address) (λ _. e)
          (λ _. e)

pub nothing-Kept : (c : CoreProcess) → Kept c.impl (done c [])
nothing-Kept c = record { sound = refl; remains = λ _. Remains-self c.impl }

pub moved : {a b : Option CoreProcessImpl} {out : Outcome} → a ≡ b → Kept a out → Kept b out
moved {a} {b} {out} e h = subst (λ o. Kept o out) e h
