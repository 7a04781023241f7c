-- ===== src/Errors/Tests.antt =====
-- Runs of `Code` and `wrapError`.
use blocky_cloud.Prelude.{false, none, some, ◌≡◌, refl}
use blocky_cloud.Errors.Chain.{
  eof, canceled, Traits, Error, sentinel, coded_over, leaf, over, is, as_retry, as_code,
}
use blocky_cloud.Errors.Code.{do_not_wrap, code_of, grpc_code, wrap_error, code_of-wrap_error}
use blocky_cloud.Text.{codes}

-- An error of the server, with the code 14.
abbrev unavailable : Error
unavailable =
    leaf (record { is_like = λ s. false; is_retry = false; grpc_code = some 14; text = codes "x" })

abbrev plain : Traits
plain = record { is_like = λ s. false; is_retry = false; grpc_code = none; text = codes "read" }

own_code : code_of (some unavailable) ≡ 14
unfolding code_of as_code is grpc_code
own_code = refl

canceled_code : code_of (some (over plain (sentinel canceled))) ≡ 1
unfolding code_of as_code is grpc_code
canceled_code = refl

wrapped : wrap_error (λ e. 9) (some unavailable) ≡ some (coded_over 9 (codes "email") unavailable)
unfolding wrap_error do_not_wrap is as_retry
wrapped = refl

kept : wrap_error (λ e. 9) (some (over plain (sentinel eof))) ≡ some (over plain (sentinel eof))
unfolding wrap_error do_not_wrap is as_retry
kept = refl

code_of-wrap_error_example : code_of (wrap_error (λ e. 9) (some (over plain (sentinel eof)))) ≡ 2
unfolding grpc_code
code_of-wrap_error_example = code_of-wrap_error (λ e. 9) (some (over plain (sentinel eof)))
