-- ===== src/Manifest/Images.antt =====
-- Qualified image names.
use tidefly_plane.Prelude.{
  ◌≡◌, refl, String, Bool, true, false, Bool-cases, inl, inr, cut_first, cut_first-append, contains,
}
use tidefly_plane.Manifest.Adapter.{has_registry, qualify_image}
use Prim.Native.String.{◌++◌}

-- Behind "docker.io/" an image has its registry.
docker_io : (image : String) → has_registry (cut_first b'/' ("docker.io/" ++ image)) ≡ true
unfolding cut_first contains
docker_io image = rw (cut_first-append b'/' "docker.io/" image refl)

-- An image that has been qualified is qualified: doing it again changes nothing.
pub qualify_image_idem :
    (image : String) (podman : Bool)
    → qualify_image (qualify_image image podman) podman ≡ qualify_image image podman
unfolding qualify_image
qualify_image_idem image false = refl
qualify_image_idem image true = elim (Bool-cases (has_registry (cut_first b'/' image))) [
  | inl e ↦ rw e (rw e)
  | inr e ↦ rw e (rw (docker_io image))
]
