-- ===== src/Protocol/Types.antt =====
-- What `parse_type` and `xiaozhi_parse_incoming_json` make of a message.
use xiaozhi.Base.{
  ℕ, ◌≡◌, ◌≢◌, ◌<◌, refl, sym, ap, subst, ◌∙◌, ◌↔◌, inl, inr, true, Option, none, some, arith,
  length, Bool-cases,
}
use xiaozhi.Base.Strings.{Bytes, codes, str_eq, str_eq_iff, length-truncate}
use xiaozhi.Protocol.{
  Json, Kind, IncomingEvent, is_text, parse_state, parse_type, copy_json_string, string_at,
  read_event,
}

-- The two strings of a message of each kind, as the server writes them.
pub data Wire : Kind → Option Bytes → Option Bytes → Type 0 where
  hello : (s : Option Bytes) → Wire Kind.hello (some (codes "hello")) s
  stt : (s : Option Bytes) → Wire Kind.stt (some (codes "stt")) s
  llm : (s : Option Bytes) → Wire Kind.llm (some (codes "llm")) s
  system : (s : Option Bytes) → Wire Kind.system (some (codes "system")) s
  mcp : (s : Option Bytes) → Wire Kind.mcp (some (codes "mcp")) s
  iot : (s : Option Bytes) → Wire Kind.iot (some (codes "iot")) s
  tts_start : Wire Kind.tts_start (some (codes "tts")) (some (codes "start"))
  tts_stop : Wire Kind.tts_stop (some (codes "tts")) (some (codes "stop"))
  sentence_start : Wire Kind.tts_sentence (some (codes "tts")) (some (codes "sentence_start"))
  sentence_end : Wire Kind.tts_sentence (some (codes "tts")) (some (codes "sentence_end"))

wire_parses : {k : Kind} {t s : Option Bytes} → Wire k t s → parse_type t s ≡ k
unfolding parse_type parse_state is_text str_eq
wire_parses (hello s) = refl
wire_parses (stt s) = refl
wire_parses (llm s) = refl
wire_parses (system s) = refl
wire_parses (mcp s) = refl
wire_parses (iot s) = refl
wire_parses tts_start = refl
wire_parses tts_stop = refl
wire_parses sentence_start = refl
wire_parses sentence_end = refl

is_text-some : (o : Option Bytes) (t : Bytes) → is_text o t ≡ true → o ≡ some t
unfolding is_text
is_text-some none t e = cc
is_text-some (some s) t e = ap some ((str_eq_iff s t).0 e)

state_wire :
    (s : Option Bytes) → parse_state s ≢ Kind.unknown → Wire (parse_state s) (some (codes "tts")) s
unfolding parse_state
state_wire s ne = elim (Bool-cases (is_text s (codes "start"))) [
  | inl e ↦ rw (e, is_text-some s (codes "start") e) tts_start
  | inr e ↦ elim (Bool-cases (is_text s (codes "stop"))) [
    | inl f ↦ rw (e, f, is_text-some s (codes "stop") f) tts_stop
    | inr f ↦ elim (Bool-cases (is_text s (codes "sentence_start"))) [
      | inl g ↦ rw (e, f, g, is_text-some s (codes "sentence_start") g) sentence_start
      | inr g ↦ elim (Bool-cases (is_text s (codes "sentence_end"))) [
        | inl h ↦ rw (e, f, g, h, is_text-some s (codes "sentence_end") h) sentence_end
        | inr h ↦ absurd (ne (rw (e, f, g, h) refl))
      ]
    ]
  ]
]

tts_type : (t s : Option Bytes) → is_text t (codes "tts") ≡ true → parse_type t s ≡ parse_state s
unfolding parse_type is_text str_eq
tts_type t s e = rw (is_text-some t (codes "tts") e) refl

type_wire : (t s : Option Bytes) → parse_type t s ≢ Kind.unknown → Wire (parse_type t s) t s
unfolding parse_type
type_wire t s ne = elim (Bool-cases (is_text t (codes "hello"))) [
  | inl e0 ↦ rw (e0, is_text-some t (codes "hello") e0) (hello s)
  | inr e0 ↦ elim (Bool-cases (is_text t (codes "stt"))) [
    | inl e1 ↦ rw (e0, e1, is_text-some t (codes "stt") e1) (stt s)
    | inr e1 ↦ elim (Bool-cases (is_text t (codes "llm"))) [
      | inl e2 ↦ rw (e0, e1, e2, is_text-some t (codes "llm") e2) (llm s)
      | inr e2 ↦ elim (Bool-cases (is_text t (codes "system"))) [
        | inl e3 ↦ rw (e0, e1, e2, e3, is_text-some t (codes "system") e3) (system s)
        | inr e3 ↦ elim (Bool-cases (is_text t (codes "mcp"))) [
          | inl e4 ↦ rw (e0, e1, e2, e3, e4, is_text-some t (codes "mcp") e4) (mcp s)
          | inr e4 ↦ elim (Bool-cases (is_text t (codes "iot"))) [
            | inl e5 ↦ rw (e0, e1, e2, e3, e4, e5, is_text-some t (codes "iot") e5) (iot s)
            | inr e5 ↦ elim (Bool-cases (is_text t (codes "tts"))) [
              | inl e6 ↦
                  rw (tts_type t s e6, is_text-some t (codes "tts") e6)
                    (state_wire s (λ u. ne (tts_type t s e6 ∙ u)))
              | inr e6 ↦ absurd (ne (rw (e0, e1, e2, e3, e4, e5, e6) refl))
            ]
          ]
        ]
      ]
    ]
  ]
]

-- The kind of a message is decided by its "type" and, for "tts", its "state": a message is of a kind
-- other than unknown just when the two strings are those that the server writes for that kind, and
-- a message that is of no such kind is unknown.
pub parse_type_iff :
    (k : Kind) (t s : Option Bytes) → k ≢ Kind.unknown → (parse_type t s ≡ k) ↔ Wire k t s
parse_type_iff k t s ne =
    (λ e. subst (λ (x : Kind). Wire x t s) e (type_wire t s (λ u. ne (sym e ∙ u))), wire_parses)

-- Every string of the event that a message leaves ends inside its array.
pub record EventFits (e : IncomingEvent) : Type 0 where
  pub session_id : length e.session_id < 64
  pub text : length e.text < 256
  pub emotion : length e.emotion < 64

copy-fits : (size : ℕ) (o : Option Bytes) → 0 < size → length (copy_json_string size o) < size
unfolding copy_json_string
copy-fits size none h = h
copy-fits size (some s) h = length-truncate size s h

pub read_event-Fits :
    {Item : Type 0} (json : Json Item) (root : Item) → EventFits (read_event json root)
unfolding read_event
read_event-Fits json root = record {
  session_id = copy-fits 64 (string_at json root (codes "session_id")) (omega arith);
  text = copy-fits 256 (string_at json root (codes "text")) (omega arith);
  emotion = copy-fits 64 (string_at json root (codes "emotion")) (omega arith);
}
