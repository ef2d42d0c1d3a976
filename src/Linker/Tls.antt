-- ===== src/Linker/Tls.antt =====
-- crates/core/src/linker/tls.rs: the registered TLS images. The total is a `usize`, whose sum wraps.
use anotherps4_emulator.Common.{ℕ, ◌+◌, ◌<◌, ◌^◌, ◌≡◌, List, [], ◌∷◌, ◌++◌, length, arith}
use anotherps4_emulator.Types.{VAddr, add64}

pub record TlsImage : Type 0 where
  pub module_index : ℕ
  pub align : ℕ
  pub image_size : ℕ
  pub total_size : ℕ
  pub image_addr : VAddr

pub record TlsManager : Type 0 where
  pub images : List TlsImage
  pub total_static_size : ℕ

unfoldable pub new : TlsManager
new = record { images = []; total_static_size = 0 }

unfoldable pub register_image : TlsManager → TlsImage → TlsManager
register_image self image = record {
  images = self.images ++ (image ∷ []);
  total_static_size = add64 self.total_static_size image.total_size;
}

abbrev pub image_count : TlsManager → ℕ
image_count self = length self.images

-- The images registered in turn.
unfoldable pub register_all : List TlsImage → TlsManager → TlsManager
register_all [] self = self
register_all (image ∷ images) self = register_all images (register_image self image)

-- The sum of the sizes.
unfoldable pub sizes : List TlsImage → ℕ
sizes [] = 0
sizes (image ∷ images) = image.total_size + sizes images

pub register_all_lem :
    (images : List TlsImage) (self : TlsManager)
    → self.total_static_size + sizes images < 2 ^ 64
    → (register_all images self).total_static_size ≡ self.total_static_size + sizes images
unfolding register_all register_image sizes
register_all_lem [] self h = omega arith
register_all_lem (image ∷ images) self h =
    let sum : add64 self.total_static_size image.total_size
        ≡ self.total_static_size + image.total_size =
      ground arith in
    let ih = register_all_lem images (register_image self image) (omega (arith, sum)) in
    omega (arith, ih, sum)
