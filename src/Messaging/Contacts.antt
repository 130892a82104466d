-- ===== src/Messaging/Contacts.antt =====
-- sippy/Contact.cpp and ContactList.cpp: the contacts of a roster. A contact stands for the object
-- that it is, by `ident`, as the list compares pointers. ConfigurationStorage, which keeps the list
-- between runs, is seen by what is handed to it.
pub mod Roster
use sparkle.Prelude.{
  ℕ, Bool, true, false, List, [], ◌∷◌, ◌++◌, Option, none, some, map, ◌==◌, if◌then◌else◌,
}
use sparkle.Address.{SparkleAddress, address_eq}
use sparkle.DataStream.{Text}

pub record Contact : Type 0 where
  pub ident : ℕ
  pub address : SparkleAddress
  pub display_name : Text
  pub status : ℕ
  pub status_text : Text

-- The signals of contacts and of their list, and the calls of ConfigurationStorage::setContacts.
pub data ListEvent : Type 0 where
  contact_added contact_removed contact_updated : Contact → ListEvent
  saved : List Contact → ListEvent

-- QList::contains and QList::removeOne of pointers.
unfoldable pub contains_contact : List Contact → Contact → Bool
contains_contact [] c = false
contains_contact (d ∷ ds) c = if d.ident == c.ident then true else contains_contact ds c

unfoldable pub remove_first : List Contact → Contact → List Contact
remove_first [] c = []
remove_first (d ∷ ds) c = if d.ident == c.ident then ds else d ∷ remove_first ds c

-- ContactList::addContact: the value returned, the list, and what happens.
unfoldable pub add_contact : List Contact → Contact → Bool × List Contact × List ListEvent
add_contact contacts c =
    if contains_contact contacts c
    then (false, contacts, [])
    else (true, contacts ++ c ∷ [], contact_added c ∷ saved (contacts ++ c ∷ []) ∷ [])

-- ContactList::removeContact
unfoldable pub remove_contact : List Contact → Contact → Bool × List Contact × List ListEvent
remove_contact contacts c =
    if contains_contact contacts c
    then (true, remove_first contacts c, contact_removed c ∷ saved (remove_first contacts c) ∷ [])
    else (false, contacts, [])

-- ContactList::load, with the contacts that are stored; clear comes first.
unfoldable pub load : List Contact → List Contact → List Contact × List ListEvent
load stored contacts = (stored, map contact_removed contacts ++ map contact_added stored)

-- ContactList::findByAddress
unfoldable pub find_by_address : List Contact → SparkleAddress → Option Contact
find_by_address [] a = none
find_by_address (c ∷ cs) a = if address_eq c.address a then some c else find_by_address cs a

-- ContactList::hasAddress
unfoldable pub has_address : List Contact → SparkleAddress → Bool
has_address contacts a = elim (find_by_address contacts a) [ some c ↦ true | none ↦ false ]

-- Contact::setDisplayName, Contact::setStatus and Contact::setStatusText on the object in the list; `updated` saves the list.
unfoldable pub update_contact : List Contact → Contact → List Contact
update_contact [] c = []
update_contact (d ∷ ds) c = (if d.ident == c.ident then c else d) ∷ update_contact ds c

unfoldable pub set_display_name :
    List Contact → Contact → Text → Contact × List Contact × List ListEvent
set_display_name contacts c name =
    let changed = record c { display_name = name } in
    let list = update_contact contacts changed in
    (changed, list, contact_updated changed ∷ saved list ∷ [])

unfoldable pub set_contact_status :
    List Contact → Contact → ℕ → Contact × List Contact × List ListEvent
set_contact_status contacts c status =
    let changed = record c { status = status } in
    let list = update_contact contacts changed in
    (changed, list, contact_updated changed ∷ saved list ∷ [])

unfoldable pub set_contact_status_text :
    List Contact → Contact → Text → Contact × List Contact × List ListEvent
set_contact_status_text contacts c text =
    let changed = record c { status_text = text } in
    let list = update_contact contacts changed in
    (changed, list, contact_updated changed ∷ saved list ∷ [])
