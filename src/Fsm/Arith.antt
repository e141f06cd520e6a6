-- ===== src/Fsm/Arith.antt =====
-- server/internal/core/storage/fsm/fsm.go: the two roundings of a byte count to a category.
use pro_labs.Common.{ℕ, ◌*◌, ◌≤◌, ◌<◌, ◌≡◌, arith}
use pro_labs.Fsm.{category, request_category, max8}

pub category_bounds : (n : ℕ) → category n < 256
unfolding category
category_bounds n = ground arith

-- A page in category c has at least 32 * c free bytes.
pub category-mul-le : (n : ℕ) → category n * 32 ≤ n
unfolding category
category-mul-le n = ground arith

-- A request is rounded up, so that a page of its category has room; but only up to 8160 bytes.
pub request_category-covers : (m n : ℕ) → m ≤ 8160 → request_category m ≤ category n → m ≤ n
unfolding category request_category
request_category-covers m n h e = ground arith

pub request_category-pos : (m : ℕ) → 0 < m → 0 < request_category m
unfolding request_category
request_category-pos m h = ground arith

-- Above 8160 bytes every request falls in the category of 8160 bytes.
pub request_category_top : (m : ℕ) → 8160 < m → request_category m ≡ request_category 8160
unfolding category request_category
request_category_top m h = ground arith

pub max8-le : (a b c : ℕ) → a ≤ c → b ≤ c → max8 a b ≤ c
unfolding max8
max8-le a b c h k = ground arith

pub le-max8_left : (a b : ℕ) → a ≤ max8 a b
unfolding max8
le-max8_left a b = ground arith

pub le-max8_right : (a b : ℕ) → b ≤ max8 a b
unfolding max8
le-max8_right a b = ground arith
