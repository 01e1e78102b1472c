-- ===== src/Executor/Paths/Inside.antt =====
-- Where the directory of a request lies.
use b7s.Common.{false, [], ◌∷◌, ◌==◌, nat_eq, ◌≡◌, refl, ap, ◌∙◌}
use b7s.Common.Text.{Text, text_eq, text_beq, codes}
use b7s.Common.Path.{join}
use b7s.Common.Path.Place.{
  IsPlain, place, place-render, place-IsPlain, join-name, join-names, render-not_empty,
}
use b7s.Executor.Paths.{generate_request_paths}

t-IsPlain : IsPlain (codes "t")
unfolding text_beq
t-IsPlain = record { no_slash = (refl, tt); not_empty = refl; not_here = refl; not_above = refl }

fs-IsPlain : IsPlain (codes "fs")
unfolding text_beq
fs-IsPlain = record {
  no_slash = (refl, (refl, tt));
  not_empty = refl;
  not_here = refl;
  not_above = refl;
}

-- If the working directory of the executor is given, and a request ID is a plain name, not empty, not
-- `.` or `..` and without a slash: the directory of the request, which is removed after the
-- execution, is the directory of that name in the directory `t` there, and its file system root
-- is in it.
pub generate_request_paths-place :
    (work_dir request_id function_id method : Text)
    → (work_dir == []) ≡ false
    → IsPlain request_id
    → (place (generate_request_paths work_dir request_id function_id method).workdir
        ≡ request_id ∷ codes "t" ∷ place work_dir)
      × (place (generate_request_paths work_dir request_id function_id method).fs_root
          ≡ codes "fs" ∷ request_id ∷ codes "t" ∷ place work_dir)
unfolding generate_request_paths
generate_request_paths-place work_dir request_id function_id method d p =
    let w = join-names work_dir (codes "t") request_id d t-IsPlain p in
    let inside =
      ap place w
      ∙ place-render (request_id ∷ codes "t" ∷ place work_dir)
          (p, (t-IsPlain, place-IsPlain work_dir)) in
    (
      inside,
      ap place (
            join-name (join (work_dir ∷ codes "t" ∷ request_id ∷ [])) (codes "fs")
              (ap (λ x. x == []) w ∙ render-not_empty request_id (codes "t" ∷ place work_dir))
              fs-IsPlain)
          ∙ place-render (codes "fs" ∷ place (join (work_dir ∷ codes "t" ∷ request_id ∷ [])))
              (fs-IsPlain, place-IsPlain (join (work_dir ∷ codes "t" ∷ request_id ∷ [])))
          ∙ ap (λ x. codes "fs" ∷ x) inside,
    )
