-- ===== src/Examples/Digests.antt =====
-- Test vectors of SHA-256.
use wiki.Base.{◌≡◌, refl, [], codes}
use wiki.Domain.Sha256.{
  sha256_text, add_words, big_endian, digest_digit, digest_word, extend, finish, last_blocks,
  length_bytes, next_word, push, push_all, rotr, round, rounds, transform, transform_all, update,
}

empty_digest :
    sha256_text [] ≡ codes "e3b0c44298fc1c149afbf4c8996fb92427ae41e4649b934ca495991b7852b855"
unfolding add_words big_endian digest_digit digest_word extend finish last_blocks length_bytes
    next_word push_all rotr round rounds sha256_text transform transform_all update
empty_digest = refl

abc_digest :
    sha256_text (codes "abc")
    ≡ codes "ba7816bf8f01cfea414140de5dae2223b00361a396177a9cb410ff61f20015ad"
unfolding add_words big_endian digest_digit digest_word extend finish last_blocks length_bytes
    next_word push push_all rotr round rounds sha256_text transform transform_all update
abc_digest = refl
