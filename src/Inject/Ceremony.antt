-- ===== src/Inject/Ceremony.antt =====
-- What is typed is what was approved, where it was approved, in time.
use rato.Prelude.{
  ℕ, String, ◌≤◌, ◌≡◌, refl, Bool, true, false, Option, none, some, arith, eq_iff, ap, sym, ◌∙◌,
  ◌↔◌, eq_refl, ltb-false, List, [], ◌∷◌, ◌++◌, codes, ◌⊎◌, inl, inr, Bool-cases, subst,
}
use rato.Prelude.Result.{ok}
use rato.Inject.{
  InjectionTarget, tmux_pane, x11_window, wayland_remote, InjectionRequest, TargetSnapshot,
  ModeState, active, away, ApprovedInjection, VerifiedInjection, verify, is_away, same_command,
  out_of_focus, planned, bracketed_paste, PlannedAction, paste_bracketed, press_enter,
}

-- An X11 window has the focus; the other targets need none.
abbrev pub InFocus : InjectionTarget → Option Bool → Type 0
InFocus (x11_window w) f = f ≡ some true
InFocus _ f = Unit {0}

-- One paste, of the bytes between ESC[200~ and ESC[201~, and behind it Enter just if it is asked for.
abbrev pub Plan : InjectionRequest → List PlannedAction → Type 0
Plan r actions =
    let paste = paste_bracketed (27 ∷ codes "[200~" ++ (r.exact_bytes ++ 27 ∷ codes "[201~")) in
    ((r.include_enter ≡ true) × (actions ≡ paste ∷ press_enter ∷ []))
    ⊎ ((r.include_enter ≡ false) × (actions ≡ paste ∷ []))

planned-Plan : (r : InjectionRequest) → Plan r (planned r)
unfolding planned bracketed_paste
planned-Plan r = elim (Bool-cases r.include_enter) [
  | inl e ↦ inl (e, rw e refl)
  | inr e ↦ inr (e, rw e refl)
]

Plan-planned :
    (r : InjectionRequest) (actions : List PlannedAction) → Plan r actions → actions ≡ planned r
unfolding planned bracketed_paste
Plan-planned r actions (inl (e, f)) = rw (f, e) refl
Plan-planned r actions (inr (e, f)) = rw (f, e) refl

-- The facts at the moment of the check.
pub record Allowed (r : InjectionRequest) (now : ℕ) (mode : ModeState) (s : TargetSnapshot)
    : Type 0 where
  pub in_time : now ≤ r.expires_at_ms
  pub present : mode ≡ active
  pub exists : s.exists ≡ true
  pub command : s.current_command ≡ some r.expected_command
  pub focus : InFocus r.target s.focused

is_away-false : (m : ModeState) → is_away m ≡ false → m ≡ active
unfolding is_away
is_away-false active h = refl
is_away-false away h = cc

same_command-true : (c : Option String) (e : String) → same_command c e ≡ true → c ≡ some e
unfolding same_command
same_command-true none e h = cc
same_command-true (some c) e h = ap some ((eq_iff c e).0 h)

same_command_refl : (e : String) → same_command (some e) e ≡ true
unfolding same_command
same_command_refl e = eq_refl e

out_of_focus-false :
    (t : InjectionTarget) (f : Option Bool) → out_of_focus t f ≡ false → InFocus t f
unfolding out_of_focus
out_of_focus-false (x11_window w) (some true) h = refl
out_of_focus-false (x11_window w) (some false) h = cc
out_of_focus-false (x11_window w) none h = cc
out_of_focus-false (tmux_pane p) f h = tt
out_of_focus-false (wayland_remote p) f h = tt

in_focus : (t : InjectionTarget) (f : Option Bool) → InFocus t f → out_of_focus t f ≡ false
unfolding out_of_focus
in_focus (x11_window w) f h = rw (h, out_of_focus) refl
in_focus (tmux_pane p) f h = refl
in_focus (wayland_remote p) f h = refl

Allowed-of_ok :
    (a : ApprovedInjection) (now : ℕ) (mode : ModeState) (s : TargetSnapshot)
    (v : VerifiedInjection)
    → verify a now mode s ≡ ok v
    → Allowed a.request now mode s
      × (v ≡ record { request = a.request; actions = planned a.request })
unfolding verify
Allowed-of_ok a now mode s v h = (
  record {
    in_time = ground arith;
    present = ground (arith, is_away-false mode);
    exists = ground arith;
    command = ground (arith, same_command-true s.current_command a.request.expected_command);
    focus = out_of_focus-false a.request.target s.focused (ground arith);
  },
  ground arith,
)

ok_of_Allowed :
    (a : ApprovedInjection) (now : ℕ) (mode : ModeState) (s : TargetSnapshot)
    → Allowed a.request now mode s
    → verify a now mode s ≡ ok (record { request = a.request; actions = planned a.request })
unfolding verify is_away
ok_of_Allowed a now mode s h =
    rw (ltb-false a.request.expires_at_ms now h.in_time, h.present, h.exists, h.command)
      (rw
        (same_command_refl a.request.expected_command, in_focus a.request.target s.focused h.focus)
        refl)

-- An injection is verified exactly if the approval has time left, the operator is there, the target
-- still runs the expected command, and an X11 window has the focus. The result then carries the request
-- as it was approved, and plans one bracketed paste of the approved bytes, followed by Enter just if the
-- request says so.
pub verify-ok_iff :
    (a : ApprovedInjection) (now : ℕ) (mode : ModeState) (s : TargetSnapshot)
    (v : VerifiedInjection)
    → (verify a now mode s ≡ ok v)
      ↔ (Allowed a.request now mode s × ((v.request ≡ a.request) × Plan a.request v.actions))
verify-ok_iff a now mode s v = (
  λ h.
      let (allowed, same) = Allowed-of_ok a now mode s v h in
      (
        allowed,
        (
          ap (λ (x : VerifiedInjection). x.request) same,
          subst (Plan a.request) (sym (ap (λ (x : VerifiedInjection). x.actions) same))
              (planned-Plan a.request),
        ),
      ),
  λ (allowed, (request, plan)).
      ok_of_Allowed a now mode s allowed
      ∙ ap ok (
          ap (λ x. record { request = x; actions = planned a.request }) (sym request)
          ∙ ap (λ x. record { request = v.request; actions = x })
              (sym (Plan-planned a.request v.actions plan))),
)
