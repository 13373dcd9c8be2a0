-- ===== src/Core/Tests.antt =====
-- Runs of crates/sts-core/src/lib.rs on concrete requests.
use sts_delegate_rs.Prelude.{
  String, ◌≡◌, ◌↔◌, refl, true, false, none, some, ok, err, split_whitespace, member, List, [], ◌∷◌,
}
use sts_delegate_rs.Core.{
  core_error, invalid_scope, invalid_target, resolve_target, downscope, split_scopes,
}
use sts_delegate_rs.Core.Target.{Resolves, resolve_target_iff}
use sts_delegate_rs.Core.Scopes.{IsIssuable, downscope-issues_iff, downscope-refuses_iff}

split_test : split_scopes (some " read  write ") ≡ "read" ∷ "write" ∷ []
unfolding split_scopes sts_delegate_rs.Prelude.Text.split_whitespace
    sts_delegate_rs.Prelude.Text.is_blank
split_test = refl

downscope_test : downscope (some "write read") "read write" (some "read") false ≡ ok "read"
unfolding downscope sts_delegate_rs.Core.intersect_scopes split_scopes
    sts_delegate_rs.Prelude.Text.split_whitespace sts_delegate_rs.Prelude.Text.is_blank
    sts_delegate_rs.Core.join_scopes sts_delegate_rs.Prelude.Text.join_spaces
downscope_test = refl

-- Disjoint subject scopes bind nothing unless the deployment demands it.
disjoint_test : downscope (some "read") "read" (some "profile") false ≡ ok "read"
unfolding downscope sts_delegate_rs.Core.intersect_scopes split_scopes
    sts_delegate_rs.Prelude.Text.split_whitespace sts_delegate_rs.Prelude.Text.is_blank
    sts_delegate_rs.Core.join_scopes sts_delegate_rs.Prelude.Text.join_spaces
disjoint_test = refl

required_test :
    downscope (some "read") "read" (some "profile") true
    ≡ err (core_error invalid_scope "no scopes remain after downscoping")
unfolding downscope sts_delegate_rs.Core.intersect_scopes split_scopes
    sts_delegate_rs.Prelude.Text.split_whitespace sts_delegate_rs.Prelude.Text.is_blank
required_test = refl

resolve_target_iff_example :
    (resolve_target (some " https://a.example ") (some "https://a.example")
      ≡ ok "https://a.example")
    ↔ Resolves (some " https://a.example ") (some "https://a.example") "https://a.example"
resolve_target_iff_example =
    resolve_target_iff (some " https://a.example ") (some "https://a.example") "https://a.example"

downscope-issues_iff_example :
    (member "read" (split_whitespace "read") ≡ true)
    ↔ IsIssuable (some "write read") "read write" (some "read") false "read"
unfolding downscope sts_delegate_rs.Core.intersect_scopes split_scopes
    sts_delegate_rs.Prelude.Text.split_whitespace sts_delegate_rs.Prelude.Text.is_blank
    sts_delegate_rs.Core.join_scopes sts_delegate_rs.Prelude.Text.join_spaces
downscope-issues_iff_example =
    downscope-issues_iff (some "write read") "read write" (some "read") false "read" "read" refl

downscope-refuses_iff_example :
    (downscope (some "read") "read" (some "profile") true
      ≡ err (core_error invalid_scope "no scopes remain after downscoping"))
    ↔ ((s : String) → ¬ IsIssuable (some "read") "read" (some "profile") true s)
downscope-refuses_iff_example = downscope-refuses_iff (some "read") "read" (some "profile") true
