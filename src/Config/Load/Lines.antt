-- ===== src/Config/Load/Lines.antt =====
-- What one line of the file does.
use xiaozhi.Base.{
  ◌≡◌, ◌≢◌, refl, sym, ap, ◌∙◌, [], ◌∷◌, ◌++◌, append_assoc, append-nil, some, arith,
}
use xiaozhi.Base.Strings.{Bytes}
use xiaozhi.Config.Assign.{assign_value}
use xiaozhi.Config.Load.{Reader, read_pair, read_trimmed, read_line}
use xiaozhi.Config.Text.Trim.{
  AllSpace, StartsInk, EndsInk, Lacks, trim_lem, cut-append, Lacks-append,
}
use xiaozhi.Config.Text.{is_space, trim}

-- A key or value as it is written: with no space at either end.
record Trimmed (s : Bytes) : Type 0 where
  starts : StartsInk s
  ends : EndsInk s

-- A key that can stand in front of `=`: not empty, with no `=` in it, and not the start of a comment
-- or a section.
pub record IsKey (key : Bytes) : Type 0 where
  pub starts : StartsInk key
  pub ends : EndsInk key
  pub some_byte : key ≢ []
  pub no_equals : Lacks b'=' key
  pub no_hash : Lacks b'#' key
  pub no_semicolon : Lacks b';' key
  pub no_bracket : Lacks b'[' key

EndsInk-append : (a b : Bytes) → b ≢ [] → EndsInk b → EndsInk (a ++ b)
EndsInk-append [] b ne h = h
EndsInk-append (x ∷ []) [] ne h = absurd (ne refl)
EndsInk-append (x ∷ []) (y ∷ b) ne h = h
EndsInk-append (x ∷ y ∷ a) b ne h = EndsInk-append (y ∷ a) b ne h

read_trimmed_pair :
    (r : Reader) (key pad rest : Bytes)
    → IsKey key
    → Lacks b'=' pad
    → read_trimmed r (key ++ (pad ++ b'=' ∷ rest))
      ≡ some (record r { config = assign_value r.config r.section (trim (key ++ pad)) (trim rest) })
unfolding read_trimmed read_pair
read_trimmed_pair r [] pad rest k h = absurd (k.some_byte refl)
read_trimmed_pair r (c ∷ key) pad rest k h = ground (
  arith,
  k.no_hash.0,
  k.no_semicolon.0,
  k.no_bracket.0,
  append_assoc (c ∷ key) pad (b'=' ∷ rest),
  cut-append b'=' ((c ∷ key) ++ pad) rest (Lacks-append b'=' (c ∷ key) pad k.no_equals h),
)

append-ne : (a b : Bytes) → b ≢ [] → a ++ b ≢ []
append-ne [] b ne = ne
append-ne (x ∷ a) b ne = λ e. cc

StartsInk-append : (a b : Bytes) → a ≢ [] → StartsInk a → StartsInk (a ++ b)
StartsInk-append [] b ne h = absurd (ne refl)
StartsInk-append (x ∷ a) b ne h = h

-- `=` is no white space.
space-Lacks : (pad : Bytes) → AllSpace pad → Lacks b'=' pad
unfolding is_space
space-Lacks [] h = tt
space-Lacks (c ∷ pad) h = (ground arith, space-Lacks pad h.1)

pair-EndsInk :
    (key p2 p3 value : Bytes)
    → value ≢ []
    → EndsInk value
    → EndsInk (key ++ (p2 ++ b'=' ∷ (p3 ++ value)))
pair-EndsInk key p2 p3 value ne e =
    let n = append-ne p3 value ne in
    let v = EndsInk-append (b'=' ∷ []) (p3 ++ value) n (EndsInk-append p3 value ne e) in
    EndsInk-append key (p2 ++ b'=' ∷ (p3 ++ value)) (append-ne p2 (b'=' ∷ (p3 ++ value)) (λ e. cc))
      (EndsInk-append p2 (b'=' ∷ (p3 ++ value)) (λ e. cc) v)

trim_after : (pad s : Bytes) → AllSpace pad → StartsInk s → EndsInk s → trim (pad ++ s) ≡ s
trim_after pad s h a b = sym (ap (λ t. trim (pad ++ t)) (append-nil s)) ∙ trim_lem pad s [] h a b tt

-- A line `key = value` assigns the value to the key in the current section, whatever white space
-- stands before, between and after the three parts; a key is a text that is not empty, has no `=`,
-- `#`, `;` or `[` in it, and no white space at either end.
pub read_line-assigns :
    (r : Reader) (key value p1 p2 p3 p4 : Bytes)
    → IsKey key
    → StartsInk value
    → EndsInk value
    → value ≢ []
    → AllSpace p1
    → AllSpace p2
    → AllSpace p3
    → AllSpace p4
    → read_line r (p1 ++ ((key ++ (p2 ++ b'=' ∷ (p3 ++ value))) ++ p4))
      ≡ some (record r { config = assign_value r.config r.section key value })
unfolding read_line
read_line-assigns r key value p1 p2 p3 p4 k vs ve vn s1 s2 s3 s4 =
    let m = key ++ (p2 ++ b'=' ∷ (p3 ++ value)) in
    let starts = StartsInk-append key (p2 ++ b'=' ∷ (p3 ++ value)) k.some_byte k.starts in
    let ends = pair-EndsInk key p2 p3 value vn ve in
    let split = read_trimmed_pair r key p2 (p3 ++ value) k (space-Lacks p2 s2) in
    let one_key = trim_lem [] key p2 tt k.starts k.ends s2 in
    rw (trim_lem p1 m p4 s1 starts ends s4, split, one_key)
      (ap (λ v. some (record r { config = assign_value r.config r.section key v }))
        (trim_after p3 value s3 vs ve))
