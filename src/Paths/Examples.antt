-- ===== src/Paths/Examples.antt =====
-- Tests of the paths.
use ddmframework.Common.{◌≡◌, refl, some}
use ddmframework.Url.{codes}
use ddmframework.Paths.{get_dir_path, get_file_name}

dir_test : get_dir_path (codes "/var/run/a.pid") 100 ≡ some (codes "/var/run")
unfolding get_dir_path
dir_test = refl

name_test : get_file_name (codes "/var/run/a.pid") 100 ≡ some (codes "a.pid")
unfolding get_file_name
name_test = refl
