-- ===== src/Browser/Command/Led.antt =====
-- Which commands set an LED.
use xiaozhi.Base.{
  ◌≡◌, ◌↔◌, refl, sym, ap, subst, ◌∙◌, inl, inr, Bool-cases, true, Option, none, some, ok, failed,
  ℕ, if◌then◌else◌, arith,
}
use xiaozhi.Base.Int.{ℤ}
use xiaozhi.Base.Strings.{Bytes, codes, str_eq, str_eq_iff}
use xiaozhi.Browser.Command.{command_parse, parsed, after_type, act, set_led, led_params, both}
use xiaozhi.Protocol.{Json, is_text, string_at, number_at, and_then}

module _ {Item : Type 0} (json : Json Item) where
  -- A command that asks for LED `id` to be set to `state`.
  pub record Asks (root : Item) (id : ℤ) (state : Bytes) : Type 0 where
    pub type : string_at json root (codes "type") ≡ some (codes "cmd")
    pub action : string_at json root (codes "action") ≡ some (codes "set_led")
    pub id_given : number_at json (json.get root (codes "params")) (codes "id") ≡ some id
    pub state_given :
        and_then (json.get root (codes "params")) (λ p. string_at json p (codes "state"))
        ≡ some state

  both_iff :
      (n : Option ℤ) (s : Option Bytes) (id : ℤ) (state : Bytes)
      → (both n s ≡ some (id, state)) ↔ ((n ≡ some id) × (s ≡ some state))
  unfolding both
  both_iff none s id state = ground arith
  both_iff (some n) none id state = ground arith
  both_iff (some n) (some s) id state = ground arith

  is_text_iff : (x : Option Bytes) (t : Bytes) → (is_text x t ≡ true) ↔ (x ≡ some t)
  unfolding is_text
  is_text_iff none t = ground arith
  is_text_iff (some s) t = ground (arith, str_eq_iff s t)

  set_led-led :
      (buf : Bytes) (size : ℕ) (action : Bytes) (led : Option (ℤ × Bytes))
      → (set_led json buf size action led).led ≡ led
  unfolding set_led
  set_led-led buf size action none = refl
  set_led-led buf size action (some led) = refl

  -- The LED that an action sets.
  led_of : Item → Bytes → Option (ℤ × Bytes)
  led_of root action = if str_eq action (codes "set_led") then led_params json root else none

  act-led :
      (buf : Bytes) (size : ℕ) (root : Item) (action : Bytes)
      → (act json buf size root action).led ≡ led_of root action
  unfolding act led_of
  act-led buf size root action = elim (Bool-cases (str_eq action (codes "set_led"))) [
    | inl e ↦ rw e (set_led-led buf size action (led_params json root))
    | inr e ↦ elim (Bool-cases (str_eq action (codes "get_status"))) [
      | inl f ↦ rw (e, f) refl
      | inr f ↦ rw (e, f) refl
    ]
  ]

  led_of_iff :
      (root : Item) (action : Bytes) (id : ℤ) (state : Bytes)
      → (led_of root action ≡ some (id, state)) ↔ (
          (action ≡ codes "set_led")
          × (number_at json (json.get root (codes "params")) (codes "id") ≡ some id)
          × (and_then (json.get root (codes "params")) (λ p. string_at json p (codes "state"))
              ≡ some state))
  unfolding led_of led_params
  led_of_iff root action id state = ground (
    arith,
    str_eq_iff action (codes "set_led"),
    both_iff (number_at json (json.get root (codes "params")) (codes "id"))
        (and_then (json.get root (codes "params")) (λ p. string_at json p (codes "state"))) id
        state,
  )

  after_type-led :
      (buf : Bytes) (size : ℕ) (root : Item) (action : Option Bytes) (id : ℤ) (state : Bytes)
      → ((after_type json buf size root action).led ≡ some (id, state))
        ↔ ((a : Bytes) × (action ≡ some a) × (led_of root a ≡ some (id, state)))
  unfolding after_type
  after_type-led buf size root none id state = ((λ e. absurd (cc e)), (λ (a, e, f). absurd (cc e)))
  after_type-led buf size root (some a) id state = (
    λ e. (a, refl, sym (act-led buf size root a) ∙ e),
    λ (b, e, f). act-led buf size root a ∙ ap (led_of root) (cc e) ∙ f,
  )

  set_led-ok :
      (buf : Bytes) (size : ℕ) (action : Bytes) (led : Option (ℤ × Bytes))
      → (set_led json buf size action led).status ≡ ok
  unfolding set_led
  set_led-ok buf size action none = refl
  set_led-ok buf size action (some led) = refl

  act-ok :
      (buf : Bytes) (size : ℕ) (root : Item) (action : Bytes)
      → (act json buf size root action).status ≡ ok
  unfolding act
  act-ok buf size root action = elim (Bool-cases (str_eq action (codes "set_led"))) [
    | inl e ↦ rw e (set_led-ok buf size action (led_params json root))
    | inr e ↦ elim (Bool-cases (str_eq action (codes "get_status"))) [
      | inl f ↦ rw (e, f) refl
      | inr f ↦ rw (e, f) refl
    ]
  ]

  after_type-ok :
      (buf : Bytes) (size : ℕ) (root : Item) (action : Option Bytes)
      → (after_type json buf size root action).status ≡ ok
  unfolding after_type
  after_type-ok buf size root none = refl
  after_type-ok buf size root (some a) = act-ok buf size root a

  parsed-failed :
      (buf : Bytes) (size : ℕ) (x : Option Item)
      → ((parsed json buf size x).status ≡ failed) ↔ (x ≡ none)
  unfolding parsed
  parsed-failed buf size none = ((λ e. refl), (λ e. refl))
  parsed-failed buf size (some root) =
      elim (Bool-cases (is_text (string_at json root (codes "type")) (codes "cmd"))) [
        | inl e ↦
            let fine = after_type-ok buf size root (string_at json root (codes "action")) in
            rw e ((λ f. absurd (cc (sym fine ∙ f))), (λ f. absurd (cc f)))
        | inr e ↦ rw e ((λ f. absurd (cc f)), (λ f. absurd (cc f)))
      ]

  Asks-iff :
      (root : Item) (id : ℤ) (state : Bytes)
      → ((string_at json root (codes "type") ≡ some (codes "cmd"))
          × ((a : Bytes) × (string_at json root (codes "action") ≡ some a)
              × (led_of root a ≡ some (id, state))))
        ↔ Asks root id state
  Asks-iff root id state = (
    λ (t, (a, e, f)). record {
      type = t;
      action = e ∙ ap some ((led_of_iff root a id state).0 f).0;
      id_given = ((led_of_iff root a id state).0 f).1;
      state_given = ((led_of_iff root a id state).0 f).2;
    },
    λ k. (
      k.type,
      (
        codes "set_led",
        k.action,
        (led_of_iff root (codes "set_led") id state).1 (refl, k.id_given, k.state_given),
      ),
    ),
  )

  parsed-led :
      (buf : Bytes) (size : ℕ) (x : Option Item) (id : ℤ) (state : Bytes)
      → ((parsed json buf size x).led ≡ some (id, state))
        ↔ ((root : Item) × (x ≡ some root) × Asks root id state)
  unfolding parsed
  parsed-led buf size none id state = ((λ e. absurd (cc e)), (λ (r, e, k). absurd (cc e)))
  parsed-led buf size (some root) id state =
      let type = string_at json root (codes "type") in
      let led = after_type-led buf size root (string_at json root (codes "action")) id state in
      elim (Bool-cases (is_text type (codes "cmd"))) [
        | inl e ↦ rw e (
          λ f. (
            root,
            refl,
            (Asks-iff root id state).0 ((is_text_iff type (codes "cmd")).0 e, led.0 f),
          ),
          λ (r, f, k). led.1 ((Asks-iff root id state).1 (subst (λ r. Asks r id state) (cc f) k)).1,
        )
        | inr e ↦ rw e (
          λ f. absurd (cc f),
          λ (r, f, k). absurd (
              cc (
                sym e
                ∙ (is_text_iff type (codes "cmd")).1 (subst (λ r. Asks r id state) (cc f) k).type)),
        )
      ]

  -- `command_parse` returns -1 exactly if the text is no JSON, and sets an LED exactly if the text is
  -- a command with the action set_led, whose parameters are a number and a text: the LED of that
  -- number, to that state.
  pub command_parse_led_iff :
      (text buf : Bytes) (size : ℕ) (id : ℤ) (state : Bytes)
      → (((command_parse json text buf size).status ≡ failed) ↔ (json.parse text ≡ none))
        × (((command_parse json text buf size).led ≡ some (id, state))
            ↔ ((root : Item) × (json.parse text ≡ some root) × Asks root id state))
  unfolding command_parse
  command_parse_led_iff text buf size id state =
      (parsed-failed buf size (json.parse text), parsed-led buf size (json.parse text) id state)
