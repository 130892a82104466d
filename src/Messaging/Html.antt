-- ===== src/Messaging/Html.antt =====
-- sippy/Messaging.cpp: filterHTML, which escapes a text before it is shown as HTML.
use sparkle.Prelude.{
  ℕ, zero, suc, ◌≡◌, refl, ap, ◌≢◌, List, [], ◌∷◌, ◌++◌, All, All-append, ◌==◌, if◌then◌else◌,
  arith, take,
}
use sparkle.Prelude.Bytes.{bytes_eq}
use mathlib.Core.List.{append_assoc}

-- QString::replace of one character by a text.
unfoldable pub replace : ℕ → List ℕ → List ℕ → List ℕ
replace c by [] = []
replace c by (u ∷ us) = (if u == c then by else u ∷ []) ++ replace c by us

-- "&amp;", "&lt;" and "&gt;"
abbrev pub amp : List ℕ
amp = 38 ∷ 97 ∷ 109 ∷ 112 ∷ 59 ∷ []

abbrev pub lt : List ℕ
lt = 38 ∷ 108 ∷ 116 ∷ 59 ∷ []

abbrev pub gt : List ℕ
gt = 38 ∷ 103 ∷ 116 ∷ 59 ∷ []

unfoldable pub filter_html : List ℕ → List ℕ
filter_html text = replace 62 gt (replace 60 lt (replace 38 amp text))

-- One character escaped.
abbrev escaped : ℕ → List ℕ
escaped u = if u == 38 then amp else if u == 60 then lt else if u == 62 then gt else u ∷ []

replace-cons :
    (c : ℕ) (by : List ℕ) (u : ℕ) (us : List ℕ)
    → replace c by (u ∷ us) ≡ (if u == c then by else u ∷ []) ++ replace c by us
unfolding replace
replace-cons c by u us = refl

replace-append :
    (c : ℕ) (by xs ys : List ℕ) → replace c by (xs ++ ys) ≡ replace c by xs ++ replace c by ys
unfolding replace
replace-append c by [] ys = refl
replace-append c by (x ∷ xs) ys =
    rw
      (
        replace-append c by xs ys,
        append_assoc (if x == c then by else x ∷ []) (replace c by xs) (replace c by ys),
      )
      refl

-- What the three passes make of one character.
passes_escape :
    (u : ℕ) → replace 62 gt (replace 60 lt (if u == 38 then amp else u ∷ [])) ≡ escaped u
unfolding replace
passes_escape u = ground arith

filter_html-cons : (u : ℕ) (us : List ℕ) → filter_html (u ∷ us) ≡ escaped u ++ filter_html us
unfolding filter_html
filter_html-cons u us =
    let first = if u == 38 then amp else u ∷ [] in
    let rest = replace 38 amp us in
    rw
      (
        replace-cons 38 amp u us,
        replace-append 60 lt first rest,
        replace-append 62 gt (replace 60 lt first) (replace 60 lt rest),
        passes_escape u,
      )
      refl

-- How HTML is read: behind an ampersand, the name of a character up to its semicolon stands for that
-- character, "amp;", "lt;" and "gt;" for the three that matter here; behind any other text it stands for itself.
abbrev entity : List ℕ → ℕ
entity us =
    if bytes_eq (take 4 us) (97 ∷ 109 ∷ 112 ∷ 59 ∷ [])
    then 38
    else if bytes_eq (take 3 us) (108 ∷ 116 ∷ 59 ∷ [])
    then 60
    else if bytes_eq (take 3 us) (103 ∷ 116 ∷ 59 ∷ [])
    then 62
    else 38

-- The length of the name that was read.
abbrev entity_rest : List ℕ → ℕ
entity_rest us =
    if bytes_eq (take 4 us) (97 ∷ 109 ∷ 112 ∷ 59 ∷ [])
    then 4
    else if bytes_eq (take 3 us) (108 ∷ 116 ∷ 59 ∷ [])
    then 3
    else if bytes_eq (take 3 us) (103 ∷ 116 ∷ 59 ∷ [])
    then 3
    else 0

pub shown : ℕ → List ℕ → List ℕ
shown skip [] = []
shown (suc skip) (u ∷ us) = shown skip us
shown zero (u ∷ us) =
    (if u == 38 then entity us else u) ∷ shown (if u == 38 then entity_rest us else 0) us

abbrev pub IsPlain : ℕ → Type 0
IsPlain u = (u ≢ 60) × (u ≢ 62)

escaped-IsPlain : (u : ℕ) → All IsPlain (escaped u)
escaped-IsPlain u = ground arith

shown-escaped : (u : ℕ) (us : List ℕ) → shown 0 (escaped u ++ us) ≡ u ∷ shown 0 us
unfolding shown
shown-escaped u us = ground arith

shown-filter_html_nil : All IsPlain (filter_html []) × (shown 0 (filter_html []) ≡ [])
unfolding filter_html replace shown
shown-filter_html_nil = (tt, refl)

-- The filtered text has no angle bracket left, and with its entities read by their names it is the
-- text that it was made of.
pub shown-filter_html :
    (text : List ℕ) → All IsPlain (filter_html text) × (shown 0 (filter_html text) ≡ text)
shown-filter_html [] = shown-filter_html_nil
shown-filter_html (u ∷ us) =
    let (plain, same) = shown-filter_html us in
    rw (filter_html-cons u us, shown-escaped u (filter_html us))
      (All-append IsPlain (escaped u) (filter_html us) (escaped-IsPlain u) plain, ap (◌∷◌ u) same)
