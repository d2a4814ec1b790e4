-- ===== src/Icache/Coherent.antt =====
-- The instruction cache of src/ICache/ICache.cpp against the program memory that it caches.
use rv32im_simulator.Prelude.{
  ℕ, zero, suc, ◌+◌, ◌*◌, ◌<◌, ◌≡◌, refl, sym, ap, ◌∙◌, ◌>>>◌, Bool, true, false, not, ◌&&◌, ◌==◌,
  ==_iff, ◌%◌, ltb, Bool-cases, u32, if◌then◌else◌, inl, inr, List, [], ◌∷◌, map, get_or, set,
  arith,
}
use rv32im_simulator.Fetch.{FetchDecision, LineReturn}
use rv32im_simulator.Icache.{
  Icache, IcacheInput, CacheRequest, request_cap, cache_index, cache_tag, word_index, head_request,
  invalid, clear, pop, push_request, hit, cached_word, fill_line, backfill, take_line, request_of,
  fetch, released, tick,
}

-- The instruction of a request, once it has one, is the word of the program at its address.
abbrev IsRight : (ℕ → ℕ) → CacheRequest → Type 0
IsRight word request = request.valid ≡ true → request.raw_inst ≡ word (request.pc >>> 2)

abbrev AllRight : (ℕ → ℕ) → List CacheRequest → Type 0
AllRight word [] = Unit
AllRight word (request ∷ rest) = IsRight word request × AllRight word rest

-- Every hit reads the word of the program, and so does every request that has its instruction.
pub record Coherent (word : ℕ → ℕ) (cache : Icache) : Type 0 where
  pub lines : (addr : ℕ) → hit addr cache ≡ true → cached_word addr cache ≡ word (addr >>> 2)
  pub requests : AllRight word cache.request_buffer

-- The line holds the four words of the program at its address.
abbrev pub IsLine : (ℕ → ℕ) → LineReturn → Type 0
IsLine word line = (i : ℕ) → i < 4 → get_or line.words i 0 ≡ word ((line.line_addr >>> 4) * 4 + i)

-- A placeholder at the head waits for the line that returns.
abbrev Awaits : LineReturn → Icache → Type 0
Awaits line cache =
    line.valid ≡ true
    → (ltb 0 cache.count && not (head_request cache).valid) ≡ true
    → (head_request cache).pc >>> 4 ≡ line.line_addr >>> 4

module _ (word : ℕ → ℕ) where
  AllRight-set :
      (xs : List CacheRequest) (i : ℕ) (request : CacheRequest)
      → AllRight word xs
      → IsRight word request
      → AllRight word (set xs i request)
  AllRight-set [] i request a r = tt
  AllRight-set (x ∷ xs) zero request a r = (r, a.1)
  AllRight-set (x ∷ xs) (suc i) request a r = (a.0, AllRight-set xs i request a.1 r)

  AllRight-clear : (xs : List CacheRequest) → AllRight word (map invalid xs)
  AllRight-clear [] = tt
  AllRight-clear (x ∷ xs) = (λ e. ground arith, AllRight-clear xs)

  -- The word of an address in a line.
  word_of_line :
      (line : LineReturn) (addr : ℕ)
      → IsLine word line
      → addr >>> 4 ≡ line.line_addr >>> 4
      → get_or line.words (word_index addr) 0 ≡ word (addr >>> 2)
  word_of_line line addr l e =
      let at : (line.line_addr >>> 4) * 4 + word_index addr ≡ addr >>> 2 = omega arith in
      l (word_index addr) (omega arith) ∙ ap word at

  -- Index and tag together name the line.
  same_line :
      (a b : ℕ) → cache_index a ≡ cache_index b → cache_tag a ≡ cache_tag b → a >>> 4 ≡ b >>> 4
  same_line a b i t = omega arith

  hit-fill_other :
      (line : LineReturn) (cache : Icache) (addr : ℕ)
      → (cache_index addr == cache_index line.line_addr) ≡ false
      → (hit addr (fill_line line cache) ≡ hit addr cache)
        × (cached_word addr (fill_line line cache) ≡ cached_word addr cache)
  unfolding fill_line hit cached_word
  hit-fill_other line cache addr other = (rw other refl, rw other refl)

  hit-fill_same :
      (line : LineReturn) (cache : Icache) (addr : ℕ)
      → (cache_index addr == cache_index line.line_addr) ≡ true
      → (hit addr (fill_line line cache) ≡ (cache_tag line.line_addr == cache_tag addr))
        × (cached_word addr (fill_line line cache) ≡ get_or line.words (word_index addr) 0)
  unfolding fill_line hit cached_word
  hit-fill_same line cache addr same = (rw same refl, rw same refl)

  fill_line-lines :
      (line : LineReturn) (cache : Icache)
      → IsLine word line
      → ((addr : ℕ) → hit addr cache ≡ true → cached_word addr cache ≡ word (addr >>> 2))
      → (addr : ℕ) → hit addr (fill_line line cache) ≡ true
      → cached_word addr (fill_line line cache) ≡ word (addr >>> 2)
  fill_line-lines line cache l old addr h =
      elim (Bool-cases (cache_index addr == cache_index line.line_addr)) [
        | inl same ↦
            let at = hit-fill_same line cache addr same in
            at.1
            ∙ word_of_line line addr l (
                same_line addr line.line_addr
                  ((==_iff (cache_index addr) (cache_index line.line_addr)).0 same)
                  (sym ((==_iff (cache_tag line.line_addr) (cache_tag addr)).0 (sym at.0 ∙ h))))
        | inr other ↦
            let at = hit-fill_other line cache addr other in at.1 ∙ old addr (sym at.0 ∙ h)
      ]

  fill_line-Coherent :
      (line : LineReturn) (cache : Icache)
      → IsLine word line
      → Coherent word cache
      → Coherent word (fill_line line cache)
  unfolding fill_line
  fill_line-Coherent line cache l c = record {
    lines = fill_line-lines line cache l c.lines;
    requests = c.requests;
  }

  -- The same lines, and requests that are right.
  requests-Coherent :
      (cache next : Icache)
      → next.blocks ≡ cache.blocks
      → AllRight word next.request_buffer
      → Coherent word cache
      → Coherent word next
  unfolding hit cached_word
  requests-Coherent cache next same r c = record {
    lines = λ addr. rw same (c.lines addr);
    requests = r;
  }

  backfill-Coherent :
      (line : LineReturn) (cache : Icache)
      → IsLine word line
      → ((ltb 0 cache.count && not (head_request cache).valid) ≡ true
          → (head_request cache).pc >>> 4 ≡ line.line_addr >>> 4)
      → Coherent word cache
      → Coherent word (backfill line cache)
  unfolding backfill
  backfill-Coherent line cache l awaits c =
      elim (Bool-cases (ltb 0 cache.count && not (head_request cache).valid)) [
        | inl b ↦ rw b (
            requests-Coherent cache _ refl
              (AllRight-set cache.request_buffer cache.head _ c.requests
                (λ e. word_of_line line (head_request cache).pc l (awaits b)))
              c)
        | inr b ↦ rw b c
      ]

  take_line-Coherent :
      (line : LineReturn) (cache : Icache)
      → (line.valid ≡ true → IsLine word line)
      → Awaits line cache
      → Coherent word cache
      → Coherent word (take_line line cache)
  unfolding take_line fill_line
  take_line-Coherent line cache l awaits c = elim (Bool-cases line.valid) [
    | inl v ↦ rw v (
        backfill-Coherent line (fill_line line cache) (l v) (awaits v)
          (fill_line-Coherent line cache (l v) c))
    | inr v ↦ rw v c
  ]

  -- A hit gives a fetch the word of the program.
  request_of-IsRight :
      (decision : FetchDecision) (old : Icache)
      → Coherent word old
      → IsRight word (request_of decision old)
  unfolding request_of
  request_of-IsRight decision old c h = rw h (c.lines decision.pc h)

  push_request-Coherent :
      (request : CacheRequest) (next : Icache)
      → IsRight word request
      → Coherent word next
      → Coherent word (push_request request next)
  unfolding push_request
  push_request-Coherent request next r c =
      requests-Coherent next _ refl
        (AllRight-set next.request_buffer ((next.head + next.count) % request_cap) request
          c.requests r)
        c

  counted-Coherent :
      (is_hit : Bool) (next : Icache)
      → Coherent word next
      → Coherent word (
          if is_hit
          then record next { hit_count = u32 (next.hit_count + 1) }
          else record next { miss_count = u32 (next.miss_count + 1) })
  counted-Coherent true next c = requests-Coherent next _ refl c.requests c
  counted-Coherent false next c = requests-Coherent next _ refl c.requests c

  fetch-Coherent :
      (decision : FetchDecision) (old next : Icache)
      → Coherent word old
      → Coherent word next
      → Coherent word (fetch decision old next)
  unfolding fetch
  fetch-Coherent decision old next o c = elim (Bool-cases decision.valid) [
    | inl v ↦ rw v (
        counted-Coherent (hit decision.pc old) _ (
          push_request-Coherent (request_of decision old) next (request_of-IsRight decision old o)
            c))
    | inr v ↦ rw v c
  ]

  released-Coherent :
      (input : IcacheInput) (cache : Icache)
      → Coherent word cache
      → Coherent word (released input cache)
  unfolding released pop
  released-Coherent input cache c = elim (Bool-cases input.pop_consume) [
    | inl p ↦ rw p (
        requests-Coherent cache _ refl
          (AllRight-set cache.request_buffer cache.head _ c.requests (λ e. ground arith)) c)
    | inr p ↦ rw p c
  ]

  -- If the returned line holds the words of the program at its address, and a placeholder that is
  -- at the head once a consumed request is released waits for that line, a tick keeps the cache
  -- coherent with the program: each hit and each request that has its instruction gives the word
  -- of the program at its address.
  pub tick-Coherent :
      (input : IcacheInput) (cache : Icache)
      → (input.line_return.valid ≡ true → IsLine word input.line_return)
      → Awaits input.line_return (released input cache)
      → Coherent word cache
      → Coherent word (tick input cache)
  unfolding tick clear
  tick-Coherent input cache l awaits c = elim (Bool-cases input.squash.need_squash) [
    | inl s ↦ rw s (requests-Coherent cache _ refl (AllRight-clear cache.request_buffer) c)
    | inr s ↦ rw s (
        fetch-Coherent input.decision cache _ c (
          take_line-Coherent input.line_return (released input cache) l awaits
            (released-Coherent input cache c)))
  ]
