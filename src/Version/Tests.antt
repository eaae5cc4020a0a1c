-- ===== src/Version/Tests.antt =====
-- Versions that internal/system/version_check.go compares.
use tidefly_plane.Prelude.{true, false, ◌≡◌, refl, strip_prefix, trim_prefix}
use tidefly_plane.Version.Check.{is_newer_version}
use tidefly_plane.Version.Order.{IsAbove, is_newer_version_trans}

newer_test : is_newer_version "v1.10.0" "v1.9.3" ≡ true
unfolding is_newer_version strip_prefix
newer_test = refl

release_test : is_newer_version "1.2.0" "1.2.0-rc.1" ≡ true
unfolding is_newer_version strip_prefix
release_test = refl

-- The texts of pre-releases are compared, not their numbers.
candidates_test : is_newer_version "1.2.0-rc.10" "1.2.0-rc.9" ≡ false
unfolding is_newer_version strip_prefix
candidates_test = refl

-- A number beyond the integers of Go counts as zero.
overflow_test : is_newer_version "v1.99999999999999999999.0" "v1.1.0" ≡ false
unfolding is_newer_version strip_prefix
overflow_test = refl

unknown_test : is_newer_version "v9.0.0" "unknown" ≡ false
unfolding is_newer_version strip_prefix
unknown_test = refl

patch_test : is_newer_version "v1.10.0" "v1.9.4" ≡ true
unfolding is_newer_version strip_prefix
patch_test = refl

patches_test : is_newer_version "v1.9.4" "v1.9.3" ≡ true
unfolding is_newer_version strip_prefix
patches_test = refl

is_newer_version_trans_example :
    (is_newer_version "v1.10.0" "v1.9.3" ≡ true)
    × (is_newer_version "v1.9.3" "v1.10.0" ≡ false)
    × IsAbove (trim_prefix "v" "v1.10.0") (trim_prefix "v" "v1.9.3")
is_newer_version_trans_example =
    is_newer_version_trans "v1.10.0" "v1.9.4" "v1.9.3" patch_test patches_test
