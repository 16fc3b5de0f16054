-- ===== src/Stack/Tagged.antt =====
-- The two parts of a tagged pointer.
use iocp_model_server.Base.{ℕ, ◌%◌, ◌^◌, ◌<◌, ◌≡◌, arith}
use iocp_model_server.Stack.{get_pointer, get_tag, make_tagged}

pub get_pointer-make_tagged :
    (tag pointer : ℕ) → pointer < 2 ^ 47 → get_pointer (make_tagged tag pointer) ≡ pointer
unfolding get_pointer make_tagged
get_pointer-make_tagged tag pointer small = omega (arith, small)

pub get_tag-make_tagged : (tag pointer : ℕ) → get_tag (make_tagged tag pointer) ≡ tag % 2 ^ 17
unfolding get_tag make_tagged
get_tag-make_tagged tag pointer = omega arith
