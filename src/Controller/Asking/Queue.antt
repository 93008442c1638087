-- ===== src/Controller/Asking/Queue.antt =====
-- Whoever asks for an approach waits for it: `request_approach` of src/marshall/atc/controller.py.
use marshall.Prelude.{
  ℕ, String, ◌≡◌, refl, sym, subst, ◌∙◌, Bool, false, Option, none, some, ◌==◌, eq_refl, Bool-cases,
  Option-cases, inl, inr, if◌then◌else◌,
}
use marshall.Prelude.Dict
use marshall.Stations.{Station}
use marshall.Controller.{
  enroute, Approach, Aircraft, hold, Engine, write, say, pro, procedure_of, free_slot,
}
use marshall.Controller.Sequence.{try_clear, give_up}
use marshall.Controller.Runway.{owns}
use marshall.Controller.Letdown.{IsNamed, HasFields}
use marshall.Controller.Clearing.{try_clear_one-Keeps}
use marshall.Controller.Missed.{Held, give_up-Held, write-Held}
use marshall.Controller.Asking.{
  is_cleared, is_new, may_be_sequenced, assigned, in_stack, is_first, told_to_hold, queue, choose,
  ask_anew, ask_again, request_approach,
}

module _ (ac : Aircraft) (k who : String) (other : (who == ac.callsign) ≡ false) (b : Engine) where
  abbrev HeldNow : Engine → Type 0
  HeldNow e = Held ac k who other b e

  -- He is on the board as he stands, and his letdown is tried.
  tried-Held :
      (a : Aircraft) (e : Engine)
      → Dict.get e.aircraft a.callsign ≡ some a
      → IsNamed e.profile a
      → HeldNow e
      → HeldNow (try_clear (some a.callsign) none e)
  unfolding try_clear procedure_of
  tried-Held a e g n h =
      let kept = try_clear_one-Keeps (some a.callsign) a e h.1 n in
      rw g (kept.0 ∙ h.0, kept.1, kept.2 k who h.2)

  told_to_hold-Held :
      (a : Aircraft) (slot : ℕ) (e : Engine)
      → IsNamed e.profile a
      → HeldNow e
      → HeldNow (try_clear (some a.callsign) none (told_to_hold a slot (write a e)))
  unfolding told_to_hold write say procedure_of
  told_to_hold-Held a slot e n h =
      let wrote = write-Held ac k who other a b e n h in
      let found = Dict.get-put e.aircraft a.callsign a.callsign a ∙ rw (eq_refl a.callsign) refl in
      elim (Bool-cases (is_first a (write a e))) [
        | inl c ↦ rw (c, told_to_hold) (tried-Held a (write a e) found n wrote)
        | inr c ↦
            rw (c, told_to_hold)
              (tried-Held a (say (hold a.callsign slot) (write a e)) found n wrote)
      ]

  queue-Held : (a : Aircraft) (e : Engine) → IsNamed e.profile a → HeldNow e → HeldNow (queue a e)
  unfolding queue procedure_of write
  queue-Held a e n h =
      let wrote = write-Held ac k who other a b e n h in
      let found = Dict.get-put e.aircraft a.callsign a.callsign a ∙ rw (eq_refl a.callsign) refl in
      elim (Option-cases (if is_new a.phase then free_slot (write a e) (some a) else none)) [
        | inl c ↦ rw (c, queue) (tried-Held a (write a e) found n wrote)
        | inr (ft, c) ↦ rw (c, queue) (told_to_hold-Held (in_stack e.t ft a) ft e n h)
      ]

  choose-Held :
      (offered : Bool) (a : Aircraft) (e : Engine)
      → IsNamed e.profile a
      → HeldNow e
      → HeldNow (choose offered a e)
  unfolding choose
  choose-Held offered a e n h = elim (Option-cases (pro e (some a))) [
    | inr (p, c) ↦ rw (c, choose) (queue-Held a e n h)
    | inl c ↦ elim (Bool-cases offered) [
      | inl g ↦ rw (c, g, choose) (write-Held ac k who other a b e n h)
      | inr g ↦ rw (c, g, choose) (queue-Held a e n h)
    ]
  ]

ask_anew-Held :
    (ac : Aircraft) (k who : String) (other : (who == ac.callsign) ≡ false)
    (asked : Option Approach) (offered : Bool) (e : Engine)
    → IsNamed e.profile ac
    → ((p : Approach) → asked ≡ some p → IsNamed e.profile (assigned p ac))
    → Held ac k who other e e
    → Held ac k who other e (ask_anew asked offered ac e)
unfolding ask_anew
ask_anew-Held ac k who other asked offered e n named h = elim (Bool-cases (may_be_sequenced ac e)) [
  | inr c ↦ rw (c, ask_anew) (write-Held ac k who other ac e e n h)
  | inl c ↦ elim (Option-cases asked) [
    | inl g ↦ rw (c, g, ask_anew) (choose-Held ac k who other e offered ac e n h)
    | inr (p, g) ↦ rw (c, g, ask_anew) (queue-Held ac k who other e (assigned p ac) e (named p g) h)
  ]
]

ask_again-Held :
    (ac : Aircraft) (k who : String) (other : (who == ac.callsign) ≡ false)
    (asked : Option Approach) (e : Engine)
    → IsNamed e.profile ac
    → ((p : Approach) → asked ≡ some p → IsNamed e.profile (assigned p ac))
    → Held ac k who other e e
    → Held ac k who other e (ask_again asked ac e)
unfolding ask_again procedure_of
ask_again-Held ac k who other none e n named h = write-Held ac k who other ac e e n h
ask_again-Held ac k who other (some p) e n named h =
    let his = record (assigned p ac) { phase = enroute } in
    let up = give_up-Held (assigned p ac) k who other e h in
    let well : IsNamed (give_up (assigned p ac) e).profile his =
      subst (λ b. IsNamed b his) (sym up.0) (named p refl) in
    let wrote = write-Held ac k who other his e (give_up (assigned p ac) e) well up in
    let again : IsNamed (write his (give_up (assigned p ac) e)).profile his =
      subst (λ b. IsNamed b his) (sym wrote.0) (named p refl) in
    elim (Bool-cases (may_be_sequenced his (write his (give_up (assigned p ac) e)))) [
      | inl c ↦
          rw (c, ask_again)
            (queue-Held ac k who other e his (write his (give_up (assigned p ac) e)) again wrote)
      | inr c ↦ rw (c, ask_again) wrote
    ]

-- Where every aircraft's aerodrome has a name, his own included and that of the approach he names, a
-- request for an approach and the clearances that it sets off take no letdown from anybody else, even if
-- he had a clearance for another approach.
pub request_approach-letdown :
    (me : Option Station) (asked : Option Approach) (offered : Bool) (ac : Aircraft) (e : Engine)
    (k who : String)
    → HasFields e
    → IsNamed e.profile ac
    → ((p : Approach) → asked ≡ some p → IsNamed e.profile (assigned p ac))
    → (who == ac.callsign) ≡ false
    → Dict.get e.letdown_by k ≡ some who
    → Dict.get (request_approach me asked offered ac e).letdown_by k ≡ some who
unfolding request_approach say
request_approach-letdown me asked offered ac e k who h n named other g =
    let held : Held ac k who other e e = (refl, h, g) in
    elim (Bool-cases (owns me "approach")) [
      | inr c ↦ rw (c, request_approach) ((write-Held ac k who other ac e e n held).2)
      | inl c ↦ elim (Bool-cases (is_cleared ac.phase)) [
        | inl d ↦
            rw (c, d, request_approach) ((ask_again-Held ac k who other asked e n named held).2)
        | inr d ↦
            rw (c, d, request_approach)
              ((ask_anew-Held ac k who other asked offered e n named held).2)
      ]
    ]
