-- ===== src/Messaging/Contacts/Roster.antt =====
-- sippy/ContactList.cpp: addContact and removeContact keep each contact once.
use sparkle.Prelude.{
  ℕ, ◌≡◌, refl, sym, ◌∙◌, Bool, true, false, not, ◌&&◌, ◌||◌, inl, inr, Bool-cases, List, [], ◌∷◌,
  ◌++◌, ◌==◌, ==_iff, if◌then◌else◌, arith,
}
use sparkle.Messaging.Contacts.{
  Contact, contains_contact, remove_first, add_contact, remove_contact,
}

abbrev pub Once : List Contact → Type 0
Once [] = Unit
Once (c ∷ cs) = (contains_contact cs c ≡ false) × Once cs

contains_contact_ident :
    (cs : List Contact) (c d : Contact)
    → c.ident ≡ d.ident
    → contains_contact cs c ≡ contains_contact cs d
unfolding contains_contact
contains_contact_ident [] c d e = refl
contains_contact_ident (q ∷ cs) c d e = ground (arith, contains_contact_ident cs c d e)

contains_contact-snoc :
    (cs : List Contact) (c d : Contact)
    → contains_contact (cs ++ c ∷ []) d ≡ (contains_contact cs d || (c.ident == d.ident))
unfolding contains_contact
contains_contact-snoc [] c d = ground arith
contains_contact-snoc (q ∷ cs) c d = ground (arith, contains_contact-snoc cs c d)

neither : (b x : Bool) → (if b then true else x) ≡ false → (b ≡ false) × (x ≡ false)
neither true x h = absurd (cc (h))
neither false x h = (refl, h)

not_same : (m n : ℕ) → (n == m) ≡ false → (m == n) ≡ false
not_same m n h = ground arith

snoc-Once :
    (cs : List Contact) (c : Contact)
    → Once cs
    → contains_contact cs c ≡ false
    → Once (cs ++ c ∷ [])
unfolding contains_contact
snoc-Once [] c h k = (refl, tt)
snoc-Once (q ∷ cs) c h k =
    let (other, absent) = neither (q.ident == c.ident) (contains_contact cs c) k in
    (
      contains_contact-snoc cs c q ∙ rw (h.0) (not_same c.ident q.ident other),
      snoc-Once cs c h.1 absent,
    )

remove_first-contains :
    (cs : List Contact) (c d : Contact)
    → Once cs
    → contains_contact (remove_first cs c) d ≡ (contains_contact cs d && not (c.ident == d.ident))
unfolding contains_contact remove_first
remove_first-contains [] c d h = refl
remove_first-contains (q ∷ cs) c d h = elim (Bool-cases (q.ident == c.ident)) [
  | inr e ↦ rw (e) (ground (arith, remove_first-contains cs c d h.1))
  | inl e ↦ elim (Bool-cases (q.ident == d.ident)) [
    | inr f ↦ rw (e, f) (ground arith)
    | inl f ↦
        let gone = sym (contains_contact_ident cs q d ((==_iff q.ident d.ident).0 f)) ∙ h.0 in
        rw (e, f, gone) (ground arith)
  ]
]

remove_first-Once : (cs : List Contact) (c : Contact) → Once cs → Once (remove_first cs c)
unfolding remove_first
remove_first-Once [] c h = tt
remove_first-Once (q ∷ cs) c h = elim (Bool-cases (q.ident == c.ident)) [
  | inl e ↦ rw (e) h.1
  | inr e ↦ rw (e) (remove_first-contains cs c q h.1 ∙ rw (h.0) refl, remove_first-Once cs c h.1)
]

already_there :
    (cs : List Contact) (c d : Contact)
    → contains_contact cs c ≡ true
    → contains_contact cs d ≡ (contains_contact cs d || (c.ident == d.ident))
already_there cs c d h = elim (Bool-cases (c.ident == d.ident)) [
  | inr e ↦ rw (e) (ground arith)
  | inl e ↦
      let there = sym (contains_contact_ident cs c d ((==_iff c.ident d.ident).0 e)) ∙ h in
      rw (there) refl
]

not_there :
    (cs : List Contact) (c d : Contact)
    → contains_contact cs c ≡ false
    → contains_contact cs d ≡ (contains_contact cs d && not (c.ident == d.ident))
not_there cs c d h = elim (Bool-cases (c.ident == d.ident)) [
  | inr e ↦ rw (e) (ground arith)
  | inl e ↦
      let absent = sym (contains_contact_ident cs c d ((==_iff c.ident d.ident).0 e)) ∙ h in
      rw (absent) refl
]

-- The list has each contact at most once, after addContact and removeContact as before. addContact
-- reports whether the contact was missing, and the list then has it and what it had; removeContact
-- reports whether it was there, and the list then has what it had but for this contact.
pub change-Once :
    (cs : List Contact) (c d : Contact)
    → Once cs
    → let (added, longer, _) = add_contact cs c in
      let (removed, shorter, _) = remove_contact cs c in
      (added ≡ not (contains_contact cs c))
      × Once longer
      × (contains_contact longer d ≡ (contains_contact cs d || (c.ident == d.ident)))
      × (removed ≡ contains_contact cs c)
      × Once shorter
      × (contains_contact shorter d ≡ (contains_contact cs d && not (c.ident == d.ident)))
unfolding add_contact remove_contact
change-Once cs c d h = elim (Bool-cases (contains_contact cs c)) [
  | inl e ↦ rw (e) (
    refl,
    h,
    already_there cs c d e,
    refl,
    remove_first-Once cs c h,
    remove_first-contains cs c d h,
  )
  | inr e ↦
      rw (e) (refl, snoc-Once cs c h e, contains_contact-snoc cs c d, refl, h, not_there cs c d e)
]
