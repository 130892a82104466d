-- ===== src/Messaging/Storage/Kept.antt =====
-- The contact list survives a restart.
use sparkle.Prelude.{
  ℕ, suc, ◌≡◌, ◌≢◌, ◌<◌, refl, sym, ap, ◌∙◌, List, [], ◌∷◌, length, map, some, All, arith,
}
use sparkle.Prelude.Bytes.{Bytes, IsByte}
use sparkle.Address.{SparkleAddress}
use sparkle.DataStream.{units}
use sparkle.Messaging.AddressText.{HexCodec, IsHexCodec, pretty, address_of_text-pretty}
use sparkle.Messaging.Contacts.{Contact}
use sparkle.Messaging.Storage.{
  Key, mac, display, Settings, IsSettings, write_from, set_contacts, read_from, contacts,
}

-- The contact has an address of six bytes.
abbrev pub HasAddress : Contact → Type 0
HasAddress c = (length c.address.bytes ≡ 6) × All IsByte c.address.bytes

-- What is stored of a contact.
abbrev pub stored : Contact → SparkleAddress × List ℕ
stored c = (c.address, units c.display_name)

mac_display : mac ≢ display
mac_display e = absurd (cc (e))

module _ (q : Settings) (h : HexCodec) (laws : IsSettings q) (codec : IsHexCodec h) where
  write_from-earlier :
      (i j : ℕ) (k : Key) (cs : List Contact) (s : q.Store)
      → j < i
      → q.value j k (write_from q h i cs s) ≡ q.value j k s
  unfolding write_from
  write_from-earlier i j k [] s lt = refl
  write_from-earlier i j k (c ∷ cs) s lt =
      let other : i ≢ j = omega arith in
      write_from-earlier (suc i) j k cs _ (omega arith)
      ∙ laws.value_index i j display k c.display_name _ other
      ∙ laws.value_index i j mac k (some (pretty h c.address)) s other

  -- What the loop of setContacts leaves for the first of its contacts.
  write_from-mac :
      (i : ℕ) (c : Contact) (cs : List Contact) (s : q.Store)
      → units (q.value i mac (write_from q h i (c ∷ cs) s)) ≡ pretty h c.address
  unfolding write_from
  write_from-mac i c cs s =
      ap units (
        write_from-earlier (suc i) i mac cs _ (omega arith)
        ∙ laws.value_key i display mac c.display_name _ (λ e. mac_display (sym e)))
      ∙ laws.value_set i mac (some (pretty h c.address)) s

  write_from-display :
      (i : ℕ) (c : Contact) (cs : List Contact) (s : q.Store)
      → units (q.value i display (write_from q h i (c ∷ cs) s)) ≡ units c.display_name
  unfolding write_from
  write_from-display i c cs s =
      ap units (write_from-earlier (suc i) i display cs _ (omega arith))
      ∙ laws.value_set i display c.display_name _

  later :
      (i : ℕ) (c : Contact) (cs : List Contact) (s t : q.Store)
      → ((j : ℕ) (k : Key) → q.value j k t ≡ q.value j k (write_from q h i (c ∷ cs) s))
      → (j : ℕ) (k : Key)
      → q.value j k t
        ≡ q.value j k (
            write_from q h (suc i) cs (
              q.set_value i display c.display_name
                (q.set_value i mac (some (pretty h c.address)) s)))
  unfolding write_from
  later i c cs s t same j k = same j k

  module _ (memory : Bytes) (status : ℕ) where
    read_from-write_from :
        (ident i : ℕ) (cs : List Contact) (s t : q.Store)
        → All HasAddress cs
        → ((j : ℕ) (k : Key) → q.value j k t ≡ q.value j k (write_from q h i cs s))
        → map stored (read_from q h memory status ident i (length cs) t) ≡ map stored cs
    unfolding read_from
    read_from-write_from ident i [] s t all same = refl
    read_from-write_from ident i (c ∷ cs) s t ((six, bytes), all) same =
        let rest =
          q.set_value i display c.display_name (q.set_value i mac (some (pretty h c.address)) s) in
        let text = ap units (same i mac) ∙ write_from-mac i c cs s in
        let name = ap units (same i display) ∙ write_from-display i c cs s in
        rw
          (
            text,
            name,
            address_of_text-pretty h codec c.address memory six bytes,
            read_from-write_from (suc ident) (suc i) cs rest t all (later i c cs s t same),
          )
          refl

    -- What setContacts has stored, contacts reads in the next run, if each address has six bytes: as many
    -- contacts, in their order, with the addresses and display names that they had.
    pub contacts-set_contacts :
        (ident : ℕ) (cs : List Contact) (s : q.Store)
        → All HasAddress cs
        → map stored (contacts q h memory status ident (set_contacts q h cs s)) ≡ map stored cs
    unfolding contacts set_contacts
    contacts-set_contacts ident cs s all =
        rw (laws.size_end (length cs) (write_from q h 0 cs (q.remove s))) (
          read_from-write_from ident 0 cs (q.remove s) _ all
            (λ j k. laws.value_end j (length cs) k _))
