-- ===== src/Replication/Extract/Consumed.antt =====
-- The loop that reads DDL events: when it ends, and what it returns (scripts/ddl_extract.py).
use stardatadblabs.Base.{
  ℕ, zero, suc, ◌+◌, ◌-◌, ◌*◌, ◌≤◌, ◌<◌, ◌≡◌, refl, ap, ◌∙◌, Text, true, false, Option, none, some,
  List, [], ◌++◌, arith,
}
use stardatadblabs.Replication.Extract.{
  Patterns, Extracted, handle, Poll, kafka_error, message, put, is_open, after_poll, consume,
  consume_ddl_topic,
}

module _ (re : Patterns) (source_key : Text) (polls : ℕ → Poll) (max_messages : ℕ) where
  consume_open :
      (rounds i polled empty : ℕ) (results : List Extracted)
      → is_open max_messages polled empty ≡ true
      → consume re source_key polls max_messages (suc rounds) i polled empty results
        ≡ after_poll re source_key polls max_messages
            (consume re source_key polls max_messages rounds (suc i))
            polled
            empty
            results
            (polls i)
  unfolding consume
  consume_open rounds i polled empty results h =
      ap
        (λ b. elim b as (λ _. Option (List Extracted)) [
          | true ↦
              after_poll re source_key polls max_messages
                (consume re source_key polls max_messages rounds (suc i)) polled empty results
                (polls i)
          | false ↦ some results
        ])
        h

  -- The rounds that may be left where no poll is an error.
  abbrev rounds_left : (polled empty : ℕ) → ℕ
  rounds_left polled empty = 5 * (max_messages - polled) + (5 - empty)

  consume_errors :
      (rounds i polled : ℕ) (results : List Extracted)
      → ((j : ℕ) → polls j ≡ kafka_error)
      → polled < max_messages
      → consume re source_key polls max_messages rounds i polled 0 results ≡ none
  unfolding consume
  consume_errors zero i polled results h l = refl
  consume_errors (suc rounds) i polled results h l =
      consume_open rounds i polled 0 results (ground arith)
      ∙ (ap
            (after_poll re source_key polls max_messages
              (consume re source_key polls max_messages rounds (suc i)) polled 0 results)
            (h i)
          ∙ consume_errors rounds (suc i) polled results h l)

  -- What the messages among n polls from the i-th on add to the results, and how many they are.
  abbrev pub poll_result : Poll → List Extracted
  poll_result (message p offset) = put [] (handle re source_key p offset)
  poll_result _ = []

  abbrev pub poll_count : Poll → ℕ
  poll_count (message p offset) = 1
  poll_count _ = 0

  unfoldable pub handled : (i n : ℕ) → List Extracted
  handled i zero = []
  handled i (suc n) = poll_result (polls i) ++ handled (suc i) n

  unfoldable pub messages : (i n : ℕ) → ℕ
  messages i zero = 0
  messages i (suc n) = poll_count (polls i) + messages (suc i) n

  -- The results are those before and those of the messages among the next polls, within the bound.
  abbrev pub IsRead : (i polled : ℕ) (results rs : List Extracted) → Type 0
  IsRead i polled results rs =
      (n : ℕ) × (rs ≡ results ++ handled i n) × (polled + messages i n ≤ max_messages)

  -- If at least one message may be read, while every poll answers with an error of Kafka the loop does
  -- not end, however many rounds it is given.
  pub consume_ddl_topic_endless :
      ((j : ℕ) → polls j ≡ kafka_error)
      → 0 < max_messages
      → (rounds : ℕ) → consume_ddl_topic re source_key polls max_messages rounds ≡ none
  unfolding consume_ddl_topic
  consume_ddl_topic_endless h l rounds = consume_errors rounds 0 0 [] h l
