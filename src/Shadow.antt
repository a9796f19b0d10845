-- ===== src/Shadow.antt =====
-- src/gpu/native/native_upload_shadow.cpp, NativeUploadShadow: the bytes of the pages last uploaded,
-- kept to skip an upload of the same bytes. Its arrays are functions of the index; the bytes of a
-- slot, `page_bytes` of them at `slot * page_bytes` in the source, are one list.
pub mod Contents
pub mod Publish
pub mod Tokens
pub mod Compare
use bolts_rebuilt.Prelude.{
  ℕ, zero, suc, ◌+◌, ◌-◌, ◌*◌, ◌/◌, ◌%◌, ◌^◌, ◌≤◌, ◌<◌, min, bit_and, Bool, true, false, not, ◌&&◌,
  ◌||◌, Option, none, some, List, [], ltb, leb, ◌==◌, if◌then◌else◌, length, update, same_words,
}

abbrev pub physical_bytes : ℕ
physical_bytes = 2 ^ 29

abbrev pub snapshot_bytes : ℕ
snapshot_bytes = 65536

-- UINT32_MAX in page_to_slot_ and in a slot's page.
abbrev pub absent : ℕ
absent = 2 ^ 32 - 1

abbrev pub max_epoch : ℕ
max_epoch = 2 ^ 64 - 1

pub record Slot : Type 0 where
  pub page : ℕ
  pub valid : Bool

abbrev pub empty_slot : Slot
empty_slot = record { page = absent; valid = false }

pub record Shadow : Type 0 where
  pub page_bytes : ℕ
  pub next_slot : ℕ
  pub epoch : ℕ
  pub evictions : ℕ
  pub page_to_slot : ℕ → ℕ
  pub slot_count : ℕ
  pub slots : ℕ → Slot
  pub bytes : ℕ → List ℕ

pub fresh : Shadow
fresh = record {
  page_bytes = 0;
  next_slot = 0;
  epoch = 1;
  evictions = 0;
  page_to_slot = λ page. absent;
  slot_count = 0;
  slots = λ slot. empty_slot;
  bytes = λ slot. [];
}

-- At the last epoch the shadow is switched off, so that no token is ever valid again.
unfoldable pub advance_epoch : Shadow → Shadow
advance_epoch s =
    if s.epoch == max_epoch then record s { page_bytes = 0 } else record s { epoch = s.epoch + 1 }

abbrev pub initialized : Shadow → Bool
initialized s = not (s.page_bytes == 0)

-- The sizes that Initialize refuses.
pub bad_sizes : ℕ → ℕ → Bool
bad_sizes page_bytes capacity =
    ltb page_bytes 4096
    || not (bit_and page_bytes (page_bytes - 1) == 0)
    || ltb snapshot_bytes page_bytes
    || not (snapshot_bytes % page_bytes == 0)
    || not (physical_bytes % page_bytes == 0)
    || ltb capacity page_bytes
    || not (capacity % page_bytes == 0)
    || ltb physical_bytes capacity

-- `allocated` tells whether the three allocations succeed.
pub initialize : Shadow → ℕ → ℕ → Bool → Shadow × Bool
initialize s page_bytes capacity allocated =
    let cleared = record (advance_epoch s) {
      page_bytes = 0;
      page_to_slot = λ page. absent;
      slot_count = 0;
      slots = λ slot. empty_slot;
      bytes = λ slot. [];
    } in
    if s.epoch == max_epoch || bad_sizes page_bytes capacity || not allocated
    then (cleared, false)
    else (
      record cleared {
        page_bytes = page_bytes;
        next_slot = 0;
        evictions = 0;
        slot_count = capacity / page_bytes;
      },
      true,
    )

pub reset : Shadow → Shadow
unfolding advance_epoch
reset s = record (advance_epoch s) {
  page_to_slot = λ page. absent;
  slots = λ slot. empty_slot;
  next_slot = 0;
}

-- The body of Invalidate's loop.
pub invalidate_page : ℕ → Shadow → Shadow
invalidate_page page s =
    let slot = s.page_to_slot page in
    if not (slot == absent) && (s.slots slot).page == page
    then record s { slots = update s.slots slot (record (s.slots slot) { valid = false }) }
    else s

pub invalidate_pages : ℕ → ℕ → Shadow → Shadow
invalidate_pages zero page s = s
invalidate_pages (suc rounds) page s = invalidate_pages rounds (page + 1) (invalidate_page page s)

-- Byte addresses, both ends inclusive.
unfoldable pub invalidate : Shadow → ℕ → ℕ → Shadow
invalidate s first last =
    let t = advance_epoch s in
    let page_first = first / t.page_bytes in
    let page_last = min last (physical_bytes - 1) / t.page_bytes in
    if not (initialized t) || ltb last first || leb physical_bytes first
    then t
    else invalidate_pages (page_last + 1 - page_first) page_first t

unfoldable pub get_page : Shadow → ℕ → ℕ → Option ℕ
get_page s address size =
    if not (initialized s)
      || not (size == s.page_bytes)
      || not (address % s.page_bytes == 0)
      || leb physical_bytes address
      || ltb (physical_bytes - address) size
    then none
    else some (address / s.page_bytes)

pub page_matches : Shadow → ℕ → List ℕ → Bool
page_matches s page bytes =
    let slot = s.page_to_slot page in
    not (slot == absent)
    && (s.slots slot).valid
    && (s.slots slot).page == page
    && same_words bytes (s.bytes slot)

unfoldable pub matches : Shadow → ℕ → List ℕ → Bool
matches s address bytes = elim (get_page s address (length bytes)) [
  | none ↦ false
  | some page ↦ page_matches s page bytes
]

-- The next slot in turn goes to the page, and is taken from the page that has it.
unfoldable pub assign_slot : Shadow → ℕ → Shadow
assign_slot s page =
    let taken = s.next_slot in
    let previous = (s.slots taken).page in
    let evicts = not (previous == absent) && s.page_to_slot previous == taken in
    record s {
      next_slot = if taken + 1 == s.slot_count then 0 else taken + 1;
      evictions = if evicts then s.evictions + 1 else s.evictions;
      page_to_slot =
          update (if evicts then update s.page_to_slot previous absent else s.page_to_slot) page
            taken;
      slots = update s.slots taken (record (s.slots taken) { page = page });
    }

-- The page has a slot of its own already.
unfoldable pub has_slot : Shadow → ℕ → Bool
has_slot s page =
    let slot = s.page_to_slot page in not (slot == absent) && (s.slots slot).page == page

unfoldable pub store : Shadow → ℕ → List ℕ → Shadow
store s slot bytes = record s {
  slots = update s.slots slot (record (s.slots slot) { valid = true });
  bytes = update s.bytes slot bytes;
}

unfoldable pub publish_page : Shadow → ℕ → List ℕ → Shadow
publish_page s page bytes =
    if has_slot s page
    then store s (s.page_to_slot page) bytes
    else store (assign_slot s page) s.next_slot bytes

unfoldable pub publish : Shadow → ℕ → List ℕ → ℕ → Shadow × Bool
publish s address bytes captured_epoch =
    if captured_epoch == s.epoch
    then elim (get_page s address (length bytes)) [
      | none ↦ (s, false)
      | some page ↦ (publish_page s page bytes, true)
    ]
    else (s, false)
