-- ===== src/Shadow/Contents.antt =====
-- The shadow seen as a partial map from pages to bytes, and how each call changes it.
use bolts_rebuilt.Prelude.{
  ℕ, ◌≤◌, ◌<◌, ◌≡◌, refl, sym, ◌∙◌, ◌≢◌, ◌↔◌, ◌⊎◌, true, not, ◌&&◌, Option, none, some, List, arith,
  ◌==◌, if◌then◌else◌, inl, inr, same_words_iff,
}
use bolts_rebuilt.Shadow.{Shadow, absent, max_epoch, page_matches, assign_slot, store}

-- The bytes that the shadow knows of a page.
unfoldable pub known : Shadow → ℕ → Option (List ℕ)
known s page =
    let slot = s.page_to_slot page in
    if not (slot == absent) && (s.slots slot).valid && (s.slots slot).page == page
    then some (s.bytes slot)
    else none

-- A page with a slot is the page that the slot is for, so no two pages share one.
pub record IsValid (s : Shadow) : Type 0 where
  pub owned :
      (page : ℕ) → s.page_to_slot page ≢ absent → (s.slots (s.page_to_slot page)).page ≡ page
  pub in_range : (page : ℕ) → s.page_to_slot page ≢ absent → s.page_to_slot page < s.slot_count
  pub real : (page : ℕ) → s.page_to_slot page ≢ absent → page < absent
  pub room : s.slot_count < absent
  pub turn : (s.page_bytes ≢ 0) → s.next_slot < s.slot_count
  pub clock : s.epoch ≤ max_epoch

-- A page matches exactly the bytes that the shadow knows of it.
pub page_matches_iff :
    (s : Shadow) (page : ℕ) (bytes : List ℕ)
    → (page_matches s page bytes ≡ true) ↔ (known s page ≡ some bytes)
unfolding page_matches known
page_matches_iff s page bytes =
    let same = same_words_iff bytes (s.bytes (s.page_to_slot page)) in
    ((λ h. ground (arith, same.0)), (λ h. ground (arith, same.1)))

pub known-store_self :
    (s : Shadow) (page slot : ℕ) (bytes : List ℕ)
    → s.page_to_slot page ≡ slot
    → slot ≢ absent
    → (s.slots slot).page ≡ page
    → known (store s slot bytes) page ≡ some bytes
unfolding known store
known-store_self s page slot bytes e h k = ground arith

pub known-store_other :
    (s : Shadow) (other slot : ℕ) (bytes : List ℕ)
    → s.page_to_slot other ≢ slot
    → known (store s slot bytes) other ≡ known s other
unfolding known store
known-store_other s other slot bytes h = ground arith

pub page_to_slot-assign :
    (s : Shadow) (page other : ℕ)
    → IsValid s
    → other ≢ page
    → (((assign_slot s page).page_to_slot other ≡ s.page_to_slot other)
        × (s.page_to_slot other ≢ s.next_slot))
      ⊎ (((assign_slot s page).page_to_slot other ≡ absent) × (s.page_to_slot other ≡ s.next_slot))
      ⊎ ((s.page_to_slot other ≡ absent) × ((assign_slot s page).page_to_slot other ≡ absent))
unfolding assign_slot
page_to_slot-assign s page other v h = ground (arith, v.owned other, v.real other, v.in_range other)

pub slots-assign :
    (s : Shadow) (page slot : ℕ)
    → slot ≢ s.next_slot
    → (assign_slot s page).slots slot ≡ s.slots slot
unfolding assign_slot
slots-assign s page slot h = ground arith

bytes-assign : (s : Shadow) (page : ℕ) → (assign_slot s page).bytes ≡ s.bytes
unfolding assign_slot
bytes-assign s page = refl

known-absent : (s : Shadow) (page : ℕ) → s.page_to_slot page ≡ absent → known s page ≡ none
unfolding known
known-absent s page e = ground arith

same_known :
    (t s : Shadow) (page : ℕ)
    → t.page_to_slot page ≡ s.page_to_slot page
    → t.slots (s.page_to_slot page) ≡ s.slots (s.page_to_slot page)
    → t.bytes ≡ s.bytes
    → known t page ≡ known s page
unfolding known
same_known t s page e f g = rw (e, f, g)

pub known-assign :
    (s : Shadow) (page other : ℕ) (bytes : List ℕ)
    → IsValid s
    → other ≢ page
    → s.next_slot < s.slot_count
    → (known (store (assign_slot s page) s.next_slot bytes) other ≡ known s other)
      ⊎ ((known (store (assign_slot s page) s.next_slot bytes) other ≡ none)
          × (s.page_to_slot other ≡ s.next_slot))
known-assign s page other bytes v h room = elim (page_to_slot-assign s page other v h) [
  | inl (e, away) ↦ inl (
      known-store_other (assign_slot s page) other s.next_slot bytes (rw e away)
      ∙ same_known (assign_slot s page) s other e (slots-assign s page (s.page_to_slot other) away)
          (bytes-assign s page))
  | inr (inl (e, taken)) ↦ inr (
    known-store_other (assign_slot s page) other s.next_slot bytes (rw e (omega (arith, v.room)))
        ∙ known-absent (assign_slot s page) other e,
    taken,
  )
  | inr (inr (e, gone)) ↦ inl (
      known-store_other (assign_slot s page) other s.next_slot bytes
        (rw gone (omega (arith, v.room)))
      ∙ known-absent (assign_slot s page) other gone
      ∙ sym (known-absent s other e))
]
