-- ===== src/Host/Values/Bytes.antt =====
-- The bytes that the host packs are those that a device packs.
use duino_bus.Base.{
  ℕ, ◌≡◌, ◌%◌, ◌+◌, ◌/◌, refl, ap, ◌∙◌, sym, arith, List, [], ◌∷◌, ◌++◌, append_assoc, append-nil,
  length,
}
use duino_bus.Words.{le_bytes}
use duino_bus.Values.RoundTrip.{image, images}
use duino_bus.Host.Packer.{pack_u8, pack_u16, pack_u32, pack_data, pack_str}
use duino_bus.Host.Values.{Value, IsPackable, in_device, all_in_device, pack_value, pack_all}
use duino_bus.Base.{All}

quarters : (x : ℕ) → (x / 65536 ≡ x / 256 / 256) × (x / 16777216 ≡ x / 256 / 256 / 256)
quarters x = (omega arith, omega arith)

pub pack_value-image :
    (packed : List ℕ) (v : Value)
    → IsPackable v
    → pack_value packed v ≡ packed ++ image (in_device v)
unfolding pack_value le_bytes pack_u8 pack_u16 pack_u32 pack_data pack_str
pack_value-image packed (Value.u8 x) h = refl
pack_value-image packed (Value.u16 x) h = append_assoc packed (x % 256 ∷ []) (x / 256 % 256 ∷ [])
pack_value-image packed (Value.u32 x) h = rw ((quarters x).0, (quarters x).1) (simp append_assoc)
pack_value-image packed (Value.buffer bytes) h = refl
pack_value-image packed (Value.string chars) h =
    let counted : (length chars + 1) % 256 ≡ length chars + 1 = omega arith in
    rw counted (simp append_assoc)

pub pack_all-images :
    (packed : List ℕ) (vs : List Value)
    → All IsPackable vs
    → pack_all packed vs ≡ packed ++ images (all_in_device vs)
unfolding pack_all
pack_all-images packed [] h = sym (append-nil packed)
pack_all-images packed (v ∷ vs) h =
    pack_all-images (pack_value packed v) vs h.1
    ∙ ap (λ l. l ++ images (all_in_device vs)) (pack_value-image packed v h.0)
    ∙ append_assoc packed (image (in_device v)) (images (all_in_device vs))
