-- ===== src/Shadow/Publish.antt =====
-- A publication makes the shadow know exactly the bytes published, and Invalidate makes it forget.
use bolts_rebuilt.Prelude.{
  ◌⊎◌, inl, inr, ◌==◌, Bool-cases, true, false, ℕ, ◌/◌, ◌<◌, ◌≡◌, refl, ◌∙◌, ap, ◌≢◌, ◌↔◌, none,
  some, List, arith, length,
}
use native.Mathlib.Nat.{div-le_self}
use bolts_rebuilt.Shadow.{
  Shadow, absent, physical_bytes, get_page, matches, has_slot, assign_slot, store, publish_page,
  publish,
}
use bolts_rebuilt.Shadow.Contents.{
  known, IsValid, page_matches_iff, known-store_self, known-store_other, known-assign,
}

has_slot_lem :
    (s : Shadow) (page : ℕ)
    → has_slot s page ≡ true
    → (s.page_to_slot page ≢ absent) × ((s.slots (s.page_to_slot page)).page ≡ page)
unfolding has_slot
has_slot_lem s page e = ground arith

slot_apart :
    (s : Shadow) (page other : ℕ)
    → IsValid s
    → other ≢ page
    → has_slot s page ≡ true
    → s.page_to_slot other ≢ s.page_to_slot page
slot_apart s page other v h e q =
    ground (arith, has_slot_lem s page e, v.owned other, ap (λ k. (s.slots k).page) q)

assign-slot_of_page :
    (s : Shadow) (page : ℕ)
    → ((assign_slot s page).page_to_slot page ≡ s.next_slot)
      × (((assign_slot s page).slots s.next_slot).page ≡ page)
unfolding assign_slot
assign-slot_of_page s page = (ground arith, ground arith)

assign-IsValid :
    (s : Shadow) (page : ℕ)
    → s.next_slot < s.slot_count
    → page < absent
    → IsValid s
    → IsValid (assign_slot s page)
unfolding assign_slot
assign-IsValid s page room small v = record {
  owned =
      λ p h. ground (arith, v.owned p, v.owned (s.slots s.next_slot).page, v.real p, v.in_range p);
  in_range = λ p h. ground (arith, v.in_range p);
  real = λ p h. ground (arith, v.real p);
  room = v.room;
  turn = λ on. ground arith;
  clock = v.clock;
}

store-IsValid : (s : Shadow) (slot : ℕ) (bytes : List ℕ) → IsValid s → IsValid (store s slot bytes)
unfolding store
store-IsValid s slot bytes v = record {
  owned = λ page h. ground (arith, v.owned page h);
  in_range = v.in_range;
  real = v.real;
  room = v.room;
  turn = v.turn;
  clock = v.clock;
}

pub publish_page-IsValid :
    (s : Shadow) (page : ℕ) (bytes : List ℕ)
    → s.page_bytes ≢ 0
    → page < absent
    → IsValid s
    → IsValid (publish_page s page bytes)
unfolding publish_page
publish_page-IsValid s page bytes on small v = elim (Bool-cases (has_slot s page)) [
  | inl e ↦ rw e (store-IsValid s (s.page_to_slot page) bytes v)
  | inr e ↦ rw e (
      store-IsValid (assign_slot s page) s.next_slot bytes
        (assign-IsValid s page (v.turn on) small v))
]

publish_page_self :
    (s : Shadow) (page : ℕ) (bytes : List ℕ)
    → s.page_bytes ≢ 0
    → page < absent
    → IsValid s
    → known (publish_page s page bytes) page ≡ some bytes
unfolding publish_page
publish_page_self s page bytes on small v = elim (Bool-cases (has_slot s page)) [
  | inl e ↦ rw e (
      known-store_self s page (s.page_to_slot page) bytes refl (has_slot_lem s page e).0
        (has_slot_lem s page e).1)
  | inr e ↦ rw e (
      known-store_self (assign_slot s page) page s.next_slot bytes (assign-slot_of_page s page).0
        (omega (arith, v.room, v.turn on)) (assign-slot_of_page s page).1)
]

publish_page_other :
    (s : Shadow) (page other : ℕ) (bytes : List ℕ)
    → s.page_bytes ≢ 0
    → page < absent
    → IsValid s
    → other ≢ page
    → (known (publish_page s page bytes) other ≡ known s other)
      ⊎ ((known (publish_page s page bytes) other ≡ none) × (s.page_to_slot other ≡ s.next_slot))
unfolding publish_page
publish_page_other s page other bytes on small v h = elim (Bool-cases (has_slot s page)) [
  | inl e ↦
      rw e (
        inl (known-store_other s other (s.page_to_slot page) bytes (slot_apart s page other v h e)))
  | inr e ↦ rw e (known-assign s page other bytes v h (v.turn on))
]

-- GetPage accepts a page-aligned address inside the buffer, with the bytes of one page.
get_page_cases :
    (s : Shadow) (address size : ℕ)
    → (get_page s address size ≡ none)
      ⊎ ((get_page s address size ≡ some (address / s.page_bytes))
          × (s.page_bytes ≢ 0)
          × (address < physical_bytes))
unfolding get_page
get_page_cases s address size = ground arith

page_in_range : (address page_bytes : ℕ) → address < physical_bytes → address / page_bytes < absent
page_in_range address page_bytes h = omega (arith, div-le_self address page_bytes)

record Accepted (s t : Shadow) (address captured : ℕ) (bytes : List ℕ) : Type 0 where
  on : s.page_bytes ≢ 0
  small : address / s.page_bytes < absent
  current : captured ≡ s.epoch
  page : get_page s address (length bytes) ≡ some (address / s.page_bytes)
  result : t ≡ publish_page s (address / s.page_bytes) bytes

publish-Accepted :
    (s t : Shadow) (address captured : ℕ) (bytes : List ℕ)
    → publish s address bytes captured ≡ (t, true)
    → Accepted s t address captured bytes
unfolding publish
publish-Accepted s t address captured bytes e = elim (get_page_cases s address (length bytes)) [
  | inl q ↦ absurd (ground arith)
  | inr (q, on, small) ↦ record {
    on = on;
    small = page_in_range address s.page_bytes small;
    current = ground arith;
    page = q;
    result = ground arith;
  }
]

-- A publication that is accepted leaves the shadow valid and knowing exactly these bytes of the
-- page. Any other page keeps what was known of it, but for the one page that gave up its slot. The
-- shadow is valid before.
pub publish_lem :
    (s t : Shadow) (address captured other : ℕ) (bytes : List ℕ)
    → IsValid s
    → publish s address bytes captured ≡ (t, true)
    → let page = address / s.page_bytes in
      IsValid t
      × (known t page ≡ some bytes)
      × ((other ≡ page)
          ⊎ (known t other ≡ known s other)
          ⊎ (known t other ≡ none) × (s.page_to_slot other ≡ s.next_slot))
publish_lem s t address captured other bytes v e =
    let a = publish-Accepted s t address captured bytes e in
    let page = address / s.page_bytes in
    let is_page : ((other == page) ≡ true) ⊎ ((other == page) ≡ false) =
      Bool-cases (other == page) in
    rw (a.result) (
      publish_page-IsValid s page bytes a.on a.small v,
      publish_page_self s page bytes a.on a.small v,
      elim is_page [
        | inl same ↦ inl (ground arith)
        | inr differ ↦
            inr (publish_page_other s page other bytes a.on a.small v (λ e'. ground arith))
      ],
    )

page_bytes-publish :
    (s t : Shadow) (address captured : ℕ) (bytes : List ℕ)
    → publish s address bytes captured ≡ (t, true)
    → t.page_bytes ≡ s.page_bytes
unfolding publish publish_page assign_slot store
page_bytes-publish s t address captured bytes e =
    ground (arith, get_page_cases s address (length bytes))

known_of_matches :
    (s : Shadow) (page_bytes address : ℕ) (bytes : List ℕ)
    → s.page_bytes ≡ page_bytes
    → matches s address bytes ≡ true
    → known s (address / page_bytes) ≡ some bytes
unfolding matches
known_of_matches s page_bytes address bytes e h = rw (← e) (
    (page_matches_iff s (address / s.page_bytes) bytes).0
      (ground (arith, get_page_cases s address (length bytes))))

get_page_same :
    (t s : Shadow) (address size : ℕ)
    → t.page_bytes ≡ s.page_bytes
    → get_page t address size ≡ get_page s address size
unfolding get_page
get_page_same t s address size e = rw e

matches_of_known :
    (t s : Shadow) (address : ℕ) (bytes : List ℕ)
    → t.page_bytes ≡ s.page_bytes
    → get_page s address (length bytes) ≡ some (address / s.page_bytes)
    → known t (address / s.page_bytes) ≡ some bytes
    → matches t address bytes ≡ true
unfolding matches
matches_of_known t s address bytes e f k =
    rw (get_page_same t s address (length bytes) e ∙ f, matches)
      ((page_matches_iff t (address / s.page_bytes) bytes).1 k)

-- After an accepted publication on a valid shadow the page matches these bytes and no others.
pub matches-publish :
    (s t : Shadow) (address captured : ℕ) (bytes others : List ℕ)
    → IsValid s
    → publish s address bytes captured ≡ (t, true)
    → (matches t address others ≡ true) ↔ (others ≡ bytes)
matches-publish s t address captured bytes others v e =
    let a = publish-Accepted s t address captured bytes e in
    let (_, self, _) = publish_lem s t address captured 0 bytes v e in
    let same = page_bytes-publish s t address captured bytes e in
    (
      (λ h. cc (known_of_matches t s.page_bytes address others same h, self)),
      (λ h. rw h (matches_of_known t s address bytes same a.page self)),
    )
