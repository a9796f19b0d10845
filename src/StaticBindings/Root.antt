-- ===== src/StaticBindings/Root.antt =====
-- The roots that the command list has bound, beside the cache that spares their recording.
use bolts_rebuilt.Prelude.{
  ℕ, ◌≡◌, ◌≢◌, refl, sym, ◌∙◌, ==_iff, ◌&&◌, Bool, true, List, [], ◌∷◌, Option, none, some, ◌==◌,
  if◌then◌else◌, arith, Bool-cases, inl, inr,
}
use bolts_rebuilt.StaticBindings.{
  Four, Bindings, with_signature, new_bindings, invalidate_all, invalidate_descriptor_tables,
  update_bindings, needs_pixel_write, did_write_pixel,
}

-- The root of a command list: its signature, and what each of its parameters is bound to, if anything.
pub record Root : Type 0 where
  pub signature : ℕ
  pub bound : Four (Option ℕ)
  pub pixel : Option ℕ

abbrev pub unbound : Four (Option ℕ)
unbound = record {
  texture_table = none;
  sampler_table = none;
  guest_memory = none;
  asset_memory = none;
}

-- Setting another root signature drops all that was bound; setting the same one changes nothing.
unfoldable pub set_signature : ℕ → Root → Root
set_signature signature root =
    if root.signature == signature
    then root
    else record { signature = signature; bound = unbound; pixel = none }

abbrev bind : Bool → ℕ → Option ℕ → Option ℕ
bind rebind value bound = if rebind then some value else bound

-- The root after the caller recorded the bindings that it was told to.
unfoldable pub record_bindings : Four Bool → Four ℕ → Root → Root
record_bindings rebind values root = record root {
  bound = record {
    texture_table = bind rebind.texture_table values.texture_table root.bound.texture_table;
    sampler_table = bind rebind.sampler_table values.sampler_table root.bound.sampler_table;
    guest_memory = bind rebind.guest_memory values.guest_memory root.bound.guest_memory;
    asset_memory = bind rebind.asset_memory values.asset_memory root.bound.asset_memory;
  };
}

-- What a caller does beside the cache. It sets the signature and records a whole update, or the pixel
-- constants; it changes the descriptor heaps, after which the two tables are bound to anything; or it
-- lets other code write the list, which leaves it with any root.
pub data Call : Type 0 where
  updates : (signature : ℕ) (values : Four ℕ) (sampler_used enabled : Bool) → Call
  writes_pixel : (signature address : ℕ) (enabled : Bool) → Call
  changes_heaps : (texture_table sampler_table : Option ℕ) → Call
  leaves : Root → Call

-- The cache and the root after a call.
unfoldable pub update_root :
    (signature : ℕ) → Four ℕ → (sampler_used enabled : Bool) → Bindings × Root → Bindings × Root
unfolding update_bindings set_signature record_bindings
update_root signature values sampler_used enabled (b, root) =
    let (rebind, c) = update_bindings b signature values sampler_used enabled in
    (c, record_bindings rebind values (set_signature signature root))

unfoldable pub write_pixel :
    (signature address : ℕ) → (enabled : Bool) → Bindings × Root → Bindings × Root
unfolding needs_pixel_write did_write_pixel set_signature
write_pixel signature address enabled (b, root) =
    let (needs, c) = needs_pixel_write b signature address enabled in
    let root' = set_signature signature root in
    if needs
    then (did_write_pixel c address enabled, record root' { pixel = some address })
    else (c, root')

unfoldable pub step : Call → Bindings × Root → Bindings × Root
unfolding update_root write_pixel invalidate_all invalidate_descriptor_tables
step (updates signature values sampler_used enabled) s =
    update_root signature values sampler_used enabled s
step (writes_pixel signature address enabled) s = write_pixel signature address enabled s
step (changes_heaps texture_table sampler_table) (b, root) = (
  invalidate_descriptor_tables b,
  record root {
    bound = record root.bound { texture_table = texture_table; sampler_table = sampler_table };
  },
)
step (leaves root') (b, root) = (invalidate_all b, root')

-- The calls in order, from a fresh cache and any root.
unfoldable pub run : List Call → Bindings × Root → Bindings × Root
unfolding step
run [] s = s
run (call ∷ calls) s = run calls (step call s)

-- Every root that the cache takes for valid is bound, under its signature, to the value it notes.
pub record Agrees (b : Bindings) (root : Root) : Type 0 where
  pub textures :
      b.valid.texture_table ≡ true
      → (root.signature ≡ b.signature) × (root.bound.texture_table ≡ some b.values.texture_table)
  pub samplers :
      b.valid.sampler_table ≡ true
      → (root.signature ≡ b.signature) × (root.bound.sampler_table ≡ some b.values.sampler_table)
  pub guest :
      b.valid.guest_memory ≡ true
      → (root.signature ≡ b.signature) × (root.bound.guest_memory ≡ some b.values.guest_memory)
  pub asset :
      b.valid.asset_memory ≡ true
      → (root.signature ≡ b.signature) × (root.bound.asset_memory ≡ some b.values.asset_memory)
  pub pixel :
      b.pixel_valid ≡ true → (root.signature ≡ b.signature) × (root.pixel ≡ some b.pixel_address)

-- Both follow a change of the signature.
with_signature-Agrees :
    (signature : ℕ) (b : Bindings) (root : Root)
    → Agrees b root
    → Agrees (with_signature b signature) (set_signature signature root)
unfolding set_signature
with_signature-Agrees signature b root v = elim (Bool-cases (b.signature == signature)) [
  | inr other ↦ rw other (record {
    textures = λ h. cc;
    samplers = λ h. cc;
    guest = λ h. cc;
    asset = λ h. cc;
    pixel = λ h. cc;
  })
  | inl same ↦
      let e = (==_iff b.signature signature).0 same in
      elim (Bool-cases (root.signature == signature)) [
        | inl kept ↦ rw (same, kept) v
        | inr changed ↦
            let apart : root.signature ≢ signature =
              λ h. ground (arith, ==_iff root.signature signature) in
            rw (same, changed)
              (record {
                textures = λ h. absurd (apart ((v.textures h).0 ∙ e));
                samplers = λ h. absurd (apart ((v.samplers h).0 ∙ e));
                guest = λ h. absurd (apart ((v.guest h).0 ∙ e));
                asset = λ h. absurd (apart ((v.asset h).0 ∙ e));
                pixel = λ h. absurd (apart ((v.pixel h).0 ∙ e));
              })
      ]
]

signatures :
    (signature : ℕ) (b : Bindings) (root : Root)
    → ((with_signature b signature).signature ≡ signature)
      × ((set_signature signature root).signature ≡ signature)
unfolding set_signature
signatures signature b root =
    ground (arith, ==_iff b.signature signature, ==_iff root.signature signature)

update_root-Agrees :
    (signature : ℕ) (values : Four ℕ) (sampler_used enabled : Bool) (b : Bindings) (root : Root)
    → Agrees b root
    → let (c, root') = update_root signature values sampler_used enabled (b, root) in Agrees c root'
unfolding update_root
update_root-Agrees signature values sampler_used enabled b root v =
    let w = with_signature-Agrees signature b root v in
    let (mine, lists) = signatures signature b root in
    let same : (set_signature signature root).signature ≡ (with_signature b signature).signature =
      lists ∙ sym mine in
    record {
      textures = λ h. (same, ground (arith, w.textures));
      samplers = λ h. (same, ground (arith, w.samplers));
      guest = λ h. (same, ground (arith, w.guest));
      asset = λ h. (same, ground (arith, w.asset));
      pixel = w.pixel;
    }

update_root-bound :
    (signature : ℕ) (values : Four ℕ) (sampler_used enabled : Bool) (b : Bindings) (root : Root)
    → Agrees b root
    → let root' = (update_root signature values sampler_used enabled (b, root)).1 in
      (root'.signature ≡ signature)
      × (root'.bound.texture_table ≡ some values.texture_table)
      × (root'.bound.guest_memory ≡ some values.guest_memory)
      × (root'.bound.asset_memory ≡ some values.asset_memory)
      × (root'.bound.sampler_table ≡ (
          if sampler_used
          then some values.sampler_table
          else (set_signature signature root).bound.sampler_table))
      × (root'.pixel ≡ (set_signature signature root).pixel)
unfolding update_root
update_root-bound signature values sampler_used enabled b root v =
    ground (arith, v.textures, v.samplers, v.guest, v.asset)

write_pixel-Agrees :
    (signature address : ℕ) (enabled : Bool) (b : Bindings) (root : Root)
    → Agrees b root
    → let (c, root') = write_pixel signature address enabled (b, root) in
      Agrees c root'
      × (root'.signature ≡ signature)
      × (root'.pixel ≡ some address)
      × (root'.bound ≡ (set_signature signature root).bound)
unfolding write_pixel
write_pixel-Agrees signature address enabled b root v =
    let w = with_signature-Agrees signature b root v in
    let (mine, lists) = signatures signature b root in
    let same : (set_signature signature root).signature ≡ (with_signature b signature).signature =
      lists ∙ sym mine in
    let c = with_signature b signature in
    elim (Bool-cases (enabled && c.pixel_valid && c.pixel_address == address)) [
      | inl held ↦ rw held (
        record {
          textures = w.textures;
          samplers = w.samplers;
          guest = w.guest;
          asset = w.asset;
          pixel = λ h. w.pixel (ground arith);
        },
        lists,
        ground (arith, w.pixel, ==_iff c.pixel_address address),
        refl,
      )
      | inr missed ↦ rw missed (
        record {
          textures = w.textures;
          samplers = w.samplers;
          guest = w.guest;
          asset = w.asset;
          pixel = λ h. (same, refl);
        },
        lists,
        refl,
        refl,
      )
    ]

fresh-Agrees : (root : Root) → Agrees new_bindings root
fresh-Agrees root = record {
  textures = λ h. cc;
  samplers = λ h. cc;
  guest = λ h. cc;
  asset = λ h. cc;
  pixel = λ h. cc;
}

step-Agrees :
    (call : Call) (b : Bindings) (root : Root)
    → Agrees b root
    → let (c, root') = step call (b, root) in Agrees c root'
unfolding step
step-Agrees (updates signature values sampler_used enabled) b root v =
    update_root-Agrees signature values sampler_used enabled b root v
step-Agrees (writes_pixel signature address enabled) b root v =
    (write_pixel-Agrees signature address enabled b root v).0
step-Agrees (changes_heaps texture_table sampler_table) b root v = record {
  textures = λ h. cc;
  samplers = λ h. cc;
  guest = v.guest;
  asset = v.asset;
  pixel = v.pixel;
}
step-Agrees (leaves root') b root v = record {
  textures = λ h. cc;
  samplers = λ h. cc;
  guest = λ h. cc;
  asset = λ h. cc;
  pixel = λ h. cc;
}

run-Agrees :
    (calls : List Call) (b : Bindings) (root : Root)
    → Agrees b root
    → let (c, root') = run calls (b, root) in Agrees c root'
unfolding run
run-Agrees [] b root v = v
run-Agrees (call ∷ calls) b root v =
    let (c, root') = step call (b, root) in run-Agrees calls c root' (step-Agrees call b root v)

-- From a fresh cache and a list with any root, after any calls: an update leaves the list with the
-- requested signature and every requested root bound to its requested value, though only the answered
-- ones are recorded; an unused sampler table and the pixel constants stay as the signature left them.
-- A write of the pixel constants leaves the list with the signature and the address, and the four
-- roots as the signature left them.
pub run-bound :
    (calls : List Call) (root : Root) (signature : ℕ) (values : Four ℕ)
    (sampler_used enabled : Bool) (address : ℕ)
    → let s = run calls (new_bindings, root) in
      let before = set_signature signature s.1 in
      let updated = (update_root signature values sampler_used enabled s).1 in
      let written = (write_pixel signature address enabled s).1 in
      (updated ≡ record {
        signature = signature;
        bound = record {
          texture_table = some values.texture_table;
          sampler_table =
              if sampler_used then some values.sampler_table else before.bound.sampler_table;
          guest_memory = some values.guest_memory;
          asset_memory = some values.asset_memory;
        };
        pixel = before.pixel;
      })
      × (written ≡ record { signature = signature; bound = before.bound; pixel = some address })
run-bound calls root signature values sampler_used enabled address =
    let (b, list) = run calls (new_bindings, root) in
    let v = run-Agrees calls new_bindings root (fresh-Agrees root) in
    let (g, t, m, a, s, p) = update_root-bound signature values sampler_used enabled b list v in
    let (w, g', p', f) = write_pixel-Agrees signature address enabled b list v in (cc, cc)
