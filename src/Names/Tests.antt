-- ===== src/Names/Tests.antt =====
-- The examples that the source gives of its rules.
use marshall.Prelude.{◌≡◌, refl, true, false, lower, only_alnum, strip, str_len, str_append}
use marshall.Names.{
  squash, same, is_evidence, all_digits, label_for, split_at, join_words, is_tag, handle,
}

handle-squadron : handle "362nd_Sockeye-1" ≡ "Sockeye"
unfolding handle split_at join_words is_tag lower
handle-squadron = refl

handle-digits_of_his_own : handle "362nd_Nomad29-1" ≡ "Nomad29"
unfolding handle split_at join_words is_tag lower
handle-digits_of_his_own = refl

handle-two_words : handle "Andre  the Giant 1-1-1" ≡ "Andre the Giant"
unfolding handle split_at join_words is_tag lower str_append
handle-two_words = refl

handle-nothing_left : handle "11-2" ≡ "11-2"
unfolding handle split_at join_words is_tag lower
handle-nothing_left = refl

label_for-index : label_for "" " 1 " "Traffic 1-1" ≡ "Traffic 1-1"
unfolding label_for all_digits strip
label_for-index = refl

same-spelt : same "362nd_Sockeye" "362ND sockeye" ≡ true
unfolding same squash lower only_alnum
same-spelt = refl

is_evidence-short : is_evidence "A-B" ≡ false
unfolding is_evidence squash lower only_alnum str_len
is_evidence-short = refl
