-- ===== src/Voice/Intent.antt =====
-- crates/rat-voice/src/intent.rs. Texts are lists of code points, and letters are modelled up to U+00FF.
-- The expression for a slug, `\b<verb>\s+([a-z]+-[a-z]+)\b`, is matched by hand.
pub mod Private
use rato.Prelude.{
  ℕ, String, Option, none, some, List, [], ◌∷◌, ◌++◌, map, Bool, true, false, not, ◌&&◌, ◌||◌,
  codes, contains, starts_with, is_whitespace, trim_start, trim, if◌then◌else◌, leb, eqb, any,
  is_empty, length, drop,
}
use rato.Voice.Approval.{to_lowercase}

pub data Intent : Type 0 where
  pause_sensors resume_sensors private_on private_off open_dashboard : Intent
  pin_recent : ℕ → Intent
  snooze : Intent
  mode_switch : List ℕ → Intent
  approval_approve approval_deny : List ℕ → Intent
  chat : List ℕ → Intent

-- The chain of `replace` calls, on one character.
unfoldable pub unaccent : ℕ → ℕ
unaccent c =
    if leb 224 c && leb c 227
    then 97
    else if eqb c 233 || eqb c 234
    then 101
    else if eqb c 237
    then 105
    else if leb 243 c && leb c 245
    then 111
    else if eqb c 250
    then 117
    else c

-- `split_whitespace` and `join(" ")` behind the first word; the flag says that a space is due.
unfoldable pub join_words : Bool → List ℕ → List ℕ
unfolding is_whitespace
join_words gap [] = []
join_words gap (c ∷ s) =
    let after = join_words true s in
    let word = join_words false s in
    if is_whitespace c then after else if gap then 32 ∷ c ∷ word else c ∷ word

unfoldable pub normalize : List ℕ → List ℕ
unfolding unaccent join_words to_lowercase trim_start
normalize text = join_words false (trim_start (map unaccent (to_lowercase text)))

unfoldable pub any_of : List ℕ → List String → Bool
unfolding contains
any_of text needles = any (λ needle. contains text (codes needle)) needles

abbrev pub modes : List String
modes = "mentor" ∷ "chaos" ∷ "quiet" ∷ "hype" ∷ "rubber duck" ∷ []

-- `mode.replace(' ', "-")`
abbrev pub dashed : ℕ → ℕ
dashed c = if eqb c 32 then 45 else c

unfoldable pub capture_mode : List ℕ → List String → Option (List ℕ)
unfolding contains
capture_mode text [] = none
capture_mode text (mode ∷ rest) =
    if contains text (codes "mode " ++ codes mode) || contains text (codes "modo " ++ codes mode)
    then some (map dashed (codes mode))
    else capture_mode text rest

unfoldable pub is_lower : ℕ → Bool
is_lower c = leb 97 c && leb c 122

-- `\w`
unfoldable pub is_word : ℕ → Bool
is_word c =
    (leb 97 c && leb c 122)
    || (leb 65 c && leb c 90)
    || (leb 48 c && leb c 57)
    || eqb c 95
    || (leb 192 c && leb c 255 && not (eqb c 215) && not (eqb c 247))
    || eqb c 170
    || eqb c 181
    || eqb c 186

-- The lower-case letters at the front, and what follows them.
unfoldable pub letters : List ℕ → List ℕ × List ℕ
unfolding is_lower
letters [] = ([], [])
letters (c ∷ s) = let (w, rest) = letters s in if is_lower c then (c ∷ w, rest) else ([], c ∷ s)

-- `\b` behind a letter.
unfoldable pub ends_word : List ℕ → Bool
unfolding is_word
ends_word [] = true
ends_word (c ∷ s) = not (is_word c)

-- `[a-z]+\b` behind the dash, with the first word of the slug.
unfoldable pub second_word : List ℕ → List ℕ × List ℕ → Option (List ℕ)
unfolding ends_word
second_word first (w, rest) =
    if not (is_empty w) && ends_word rest then some (first ++ 45 ∷ w) else none

unfoldable pub dash_word : List ℕ × List ℕ → Option (List ℕ)
unfolding second_word letters
dash_word ([], rest) = none
dash_word (c ∷ w, []) = none
dash_word (c ∷ w, d ∷ rest) = if eqb d 45 then second_word (c ∷ w) (letters rest) else none

-- `\s+([a-z]+-[a-z]+)\b` behind the verb.
unfoldable pub slug_after : List ℕ → Option (List ℕ)
unfolding dash_word letters is_whitespace trim_start
slug_after [] = none
slug_after (c ∷ s) = if is_whitespace c then dash_word (letters (trim_start s)) else none

-- The first match in the text; the flag says that the character before is a word character.
unfoldable pub find_slug : Bool → List ℕ → List ℕ → Option (List ℕ)
unfolding slug_after is_word starts_with
find_slug inside verb [] = none
find_slug inside verb (c ∷ s) =
    let later = find_slug (is_word c) verb s in
    if not inside && starts_with (c ∷ s) verb
    then elim (slug_after (drop (length verb) (c ∷ s))) [ none ↦ later | some slug ↦ some slug ]
    else later

unfoldable pub capture_slug : List ℕ → List String → Option (List ℕ)
unfolding find_slug
capture_slug text [] = none
capture_slug text (verb ∷ verbs) = elim (find_slug false (codes verb) text) [
  | none ↦ capture_slug text verbs
  | some slug ↦ some slug
]

-- The part of `route` behind the fixed phrases.
unfoldable pub route_captures : List ℕ → List ℕ → Intent
unfolding capture_mode capture_slug trim
route_captures text t = elim (capture_mode t modes) [
  | some mode ↦ mode_switch mode
  | none ↦ elim (capture_slug t ("approve" ∷ "aprovar" ∷ "aprova" ∷ [])) [
    | some slug ↦ approval_approve slug
    | none ↦ elim (capture_slug t ("deny" ∷ "reject" ∷ "negar" ∷ "rejeitar" ∷ "nega" ∷ [])) [
      | some slug ↦ approval_deny slug
      | none ↦ chat (trim text)
    ]
  ]
]

abbrev pub pause_phrases : List String
pause_phrases =
    "pause sensors" ∷ "stop listening" ∷ "disable sensors" ∷ "pausar sensores" ∷ "para sensores"
    ∷ []

abbrev pub resume_phrases : List String
resume_phrases = "resume sensors" ∷ "enable sensors" ∷ "voltar sensores" ∷ "retomar sensores" ∷ []

-- `route` on the normalized text; the language is not read.
unfoldable pub route_normalized : List ℕ → List ℕ → Intent
route_normalized text t =
    if any_of t pause_phrases
    then pause_sensors
    else if any_of t resume_phrases
    then resume_sensors
    else if any_of t ("private mode" ∷ "go private" ∷ "modo privado" ∷ "privado ligado" ∷ [])
    then private_on
    else if any_of t ("exit private" ∷ "private off" ∷ "sair do privado" ∷ "privado desligado" ∷ [])
    then private_off
    else if any_of t ("open dashboard" ∷ "show dashboard" ∷ "abrir painel" ∷ "mostrar painel" ∷ [])
    then open_dashboard
    else if any_of t ("pin that" ∷ "pin this" ∷ "pina isso" ∷ "fixa isso" ∷ [])
    then pin_recent 2
    else if any_of t ("snooze" ∷ "remind me later" ∷ "adiar" ∷ "soneca" ∷ [])
    then snooze
    else route_captures text t

unfoldable pub route : List ℕ → Intent
route text = route_normalized text (normalize text)
