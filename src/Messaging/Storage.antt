-- ===== src/Messaging/Storage.antt =====
-- sippy/ConfigurationStorage.cpp, contacts and setContacts: the contacts between two runs of the
-- program. QSettings, in which they are kept, is a record of operations and laws.
pub mod Kept
use sparkle.Prelude.{ℕ, zero, suc, ◌≡◌, ◌≢◌, ◌<◌, ◌⊎◌, List, [], ◌∷◌, length, none, some}
use sparkle.Prelude.Bytes.{Bytes}
use sparkle.DataStream.{Text, units}
use sparkle.Messaging.AddressText.{HexCodec, pretty, address_of_text}
use sparkle.Messaging.Contacts.{Contact}

-- "mac" and "display"
pub data Key : Type 0 where
  mac display : Key

-- QSettings, seen from the array "contacts": `value` and `set_value` at an index of it. `end_array`
-- follows the writing of so many entries; `size` is what beginReadArray returns.
pub record Settings : Type 1 where
  pub Store : Type 0
  pub remove : Store → Store
  pub set_value : ℕ → Key → Text → Store → Store
  pub end_array : ℕ → Store → Store
  pub size : Store → ℕ
  pub value : ℕ → Key → Store → Text

-- A value that was set is there until it is set again, where a null text may come back as an empty one.
pub record IsSettings (q : Settings) : Type 0 where
  pub value_set :
      (i : ℕ) (k : Key) (t : Text) (s : q.Store)
      → units (q.value i k (q.set_value i k t s)) ≡ units t
  pub value_key :
      (i : ℕ) (k l : Key) (t : Text) (s : q.Store)
      → k ≢ l
      → q.value i l (q.set_value i k t s) ≡ q.value i l s
  pub value_index :
      (i j : ℕ) (k l : Key) (t : Text) (s : q.Store)
      → i ≢ j
      → q.value j l (q.set_value i k t s) ≡ q.value j l s
  pub value_end : (i n : ℕ) (k : Key) (s : q.Store) → q.value i k (q.end_array n s) ≡ q.value i k s
  pub size_end : (n : ℕ) (s : q.Store) → q.size (q.end_array n s) ≡ n

module _ (q : Settings) (h : HexCodec) where
  -- The loop of setContacts.
  unfoldable pub write_from : ℕ → List Contact → q.Store → q.Store
  write_from i [] s = s
  write_from i (c ∷ cs) s =
      write_from (suc i) cs
        (q.set_value i display c.display_name (q.set_value i mac (some (pretty h c.address)) s))

  unfoldable pub set_contacts : List Contact → q.Store → q.Store
  set_contacts cs s = q.end_array (length cs) (write_from 0 cs (q.remove s))

  -- What uninitialised bytes and statuses hold.
  module _ (memory : Bytes) (status : ℕ) where
    -- The loop of contacts, with the number of turns that are left; each contact is a new object.
    unfoldable pub read_from : ℕ → ℕ → ℕ → q.Store → List Contact
    read_from ident i zero s = []
    read_from ident i (suc n) s =
        record {
          ident = ident;
          address = address_of_text h memory (units (q.value i mac s));
          display_name = q.value i display s;
          status = status;
          status_text = none;
        }
        ∷ read_from (suc ident) (suc i) n s

    unfoldable pub contacts : ℕ → q.Store → List Contact
    contacts ident s = read_from ident 0 (q.size s) s
