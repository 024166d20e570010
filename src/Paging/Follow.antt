-- ===== src/Paging/Follow.antt =====
-- What a round of walk_page_table leaves of the way.
use Prim.{tt}
use os.Base.{
  ℕ, zero, suc, ◌+◌, ◌≤◌, ◌<◌, ◌≡◌, ◌≢◌, ◌⊎◌, inl, inr, true, false, refl, sym, ap, ◌∙◌, ◌==◌,
  arith,
}
use os.Base.Memory.{Memory}
use os.Pmm.{Pmm, page_size}
use os.Paging.{slot, index, present, huge, page_mask, read_pte, write_pte, lookup_tables}
use os.Paging.Frame.{Away, IsAligned, Clear, Keeps, Keeps-Clear, Keeps-trans}
use os.Paging.Entry.{Leads, does}
use os.Paging.Path.{entry_of, Avoids, Tables}
use os.Paging.Found.{Walked, Found, found, zero_entry, entry_stays, same_pages, others_apart}
use os.Paging.Separate.{Later, Separate, lookup_ext}

present_zero : {e : ℕ} → e ≡ 0 → present e ≡ false
present_zero h = rw h refl

lookup_absent :
    (level : ℕ) (m : Memory) (t w : ℕ)
    → present (entry_of m level t w) ≡ false
    → lookup_tables (suc level) m t w ≡ 0
unfolding lookup_tables
lookup_absent level m t w off = rw off refl

pub lookup_follow :
    (level : ℕ) (m : Memory) (t w e : ℕ)
    → entry_of m level t w ≡ e
    → level ≢ 0
    → present e ≡ true
    → huge e ≡ false
    → lookup_tables (suc level) m t w ≡ lookup_tables level m (page_mask e) w
unfolding lookup_tables
lookup_follow level m t w e h ne on narrow =
    let more : (level == 0) ≡ false = ground arith in rw (h, on, more, narrow) refl

-- Addresses that part below a page of zeros
Separate-zeros :
    (s : Pmm) (n p v w : ℕ)
    → ((x : ℕ) → p ≤ x → x < p + page_size → s.mem x ≡ 0)
    → Later n v w
    → Separate s n p v w
Separate-zeros s zero p v w zeros later = tt
Separate-zeros s (suc level) p v w zeros (inl ne) =
    inl (ne, λ _ d. let no = zero_entry s.mem level p w zeros in absurd (ground arith))
Separate-zeros s (suc level) p v w zeros (inr (same, n0, later)) =
    inr (same, n0, inl (present_zero (zero_entry s.mem level p w zeros), later))

module _ {s : Pmm} (level : ℕ) {t : ℕ} (vaddr : ℕ) (c : Clear s t) (al : IsAligned t) where
  abbrev old : ℕ
  old = entry_of s.mem (suc level) t vaddr

  -- An entry that did is followed.
  others_kept :
      {a : ℕ} {m : Memory}
      → does (suc level) old ≡ true
      → Avoids s.mem (suc level) (page_mask old) vaddr t
      → Walked s level (page_mask old) vaddr a m
      → (v x : ℕ) → Separate s (suc (suc level)) t vaddr x
      → lookup_tables (suc (suc level)) (write_pte m a v) t x
        ≡ lookup_tables (suc (suc level)) s.mem t x
  others_kept ok avoids w v x (inl (ne, off)) =
      others_apart (suc level) t vaddr
        (λ u y cu au av. w.unchanged u y cu au (av.1 (omega arith) ok))
        (λ u cu au av. w.away u cu au (av.1 (omega arith) ok)) v
        (λ y p q out. w.unchanged t y c al avoids p q) (inr (w.away t c al avoids)) x ne off
  others_kept ok avoids w v x (inr (same, n0, inl (off, later))) =
      let e : entry_of s.mem (suc level) t x ≡ old = ap (λ i. read_pte s.mem (slot t i)) same in
      let off' : present old ≡ false = rw e at off in absurd (ground arith)
  others_kept {a} {m} ok avoids w v x (inr (same, n0, inr (d, sep))) =
      let e : entry_of s.mem (suc level) t x ≡ old = ap (λ i. read_pte s.mem (slot t i)) same in
      let sep' : Separate s (suc level) (page_mask old) vaddr x = rw e at sep in
      lookup_ext (suc level) s.mem (write_pte m a v) t t x
        (same_pages level (page_mask old) vaddr w.unchanged w.away v t (suc level) x
          (c, al, avoids))
        (λ _ _. rw e (w.others v x sep'))

  pub Found-kept :
      {out : ℕ × Pmm}
      → does (suc level) old ≡ true
      → Avoids s.mem (suc level) (page_mask old) vaddr t
      → Found s level (page_mask old) vaddr out
      → Found s (suc level) t vaddr out
  Found-kept ok avoids (found a m w) =
      let stays = entry_stays (suc level) t w c al avoids in
      found a m (record {
        reaches = rw stays (ground arith, ground arith, w.away t c al avoids, w.reaches);
        positive = w.positive;
        keeps = w.keeps;
        aligned = w.aligned;
        home = w.home;
        siblings = λ x p q off. w.unchanged t x c al avoids p q;
        others = others_kept ok avoids w;
        unchanged = λ u x cu au av. w.unchanged u x cu au (av.1 (omega arith) ok);
        away = λ u cu au av. w.away u cu au (av.1 (omega arith) ok);
      })

  module _ {n p : ℕ} {m : Memory} (f : Leads s n t (slot t (index (suc level) vaddr)) p m) where
    pub Avoids-new : (u : ℕ) → u ≢ p → Avoids m (suc level) p vaddr u
    Avoids-new u ne =
        (ne, λ _ e. let no = zero_entry m level p vaddr f.zeros in absurd (ground arith))

    pub Tables-new : Tables (record s { mem = m }) (suc level) p vaddr
    Tables-new = (
      f.own,
      f.aligned,
      f.positive,
      λ _ e. let no = zero_entry m level p vaddr f.zeros in absurd (ground arith),
    )

    module _ {a : ℕ} {m' : Memory} (w : Walked (record s { mem = m }) level p vaddr a m') where
      abbrev avoids_t : Avoids m (suc level) p vaddr t
      avoids_t = Avoids-new t (f.others t c)

      abbrev now-Clear : Clear (record s { mem = m }) t
      now-Clear = Keeps-Clear f.keeps t c

      made_unchanged :
          (u x : ℕ)
          → Clear s u
          → IsAligned u
          → Avoids s.mem (suc (suc level)) t vaddr u
          → u ≤ x
          → x < u + page_size
          → m' x ≡ s.mem x
      made_unchanged u x cu au av le lt =
          w.unchanged u x (Keeps-Clear f.keeps u cu) au (Avoids-new u (f.others u cu)) le lt
          ∙ f.unchanged u x cu au av.0 le lt

      made-Away :
          (u : ℕ)
          → Clear s u
          → IsAligned u
          → Avoids s.mem (suc (suc level)) t vaddr u
          → Away a 8 u page_size
      made-Away u cu au av = w.away u (Keeps-Clear f.keeps u cu) au (Avoids-new u (f.others u cu))

      made_siblings :
          (x : ℕ)
          → t ≤ x
          → x < t + page_size
          → (x < slot t (index (suc level) vaddr)) ⊎ (slot t (index (suc level) vaddr) + 8 ≤ x)
          → m' x ≡ s.mem x
      made_siblings x le lt out =
          w.unchanged t x now-Clear al avoids_t le lt ∙ f.siblings x le lt out

      -- The entry of the new table
      made_entry : (v : ℕ) → entry_of (write_pte m' a v) (suc level) t vaddr ≡ p + 7
      made_entry v =
          same_pages level p vaddr w.unchanged w.away v t (suc level) vaddr
            (now-Clear, al, avoids_t)
          ∙ f.entry

      others_made :
          does (suc level) old ≡ false
          → (v x : ℕ) → Separate s (suc (suc level)) t vaddr x
          → lookup_tables (suc (suc level)) (write_pte m' a v) t x
            ≡ lookup_tables (suc (suc level)) s.mem t x
      others_made new v x (inl (ne, off)) =
          others_apart (suc level) t vaddr made_unchanged made-Away v made_siblings
            (inr (w.away t now-Clear al avoids_t)) x ne off
      others_made new v x (inr (same, n0, inr (d, sep))) =
          let e : entry_of s.mem (suc level) t x ≡ old = ap (λ i. read_pte s.mem (slot t i)) same in
          let d' : does (suc level) old ≡ true = rw e at d in absurd (ground arith)
      others_made new v x (inr (same, n0, inl (off, later))) =
          let e : entry_of (write_pte m' a v) (suc level) t x ≡ p + 7 =
            ap (λ i. read_pte (write_pte m' a v) (slot t i)) same ∙ made_entry v in
          let there : present (p + 7) ≡ true = let al_p = f.aligned in ground arith in
          let narrow : huge (p + 7) ≡ false = let al_p = f.aligned in ground arith in
          let mask : page_mask (p + 7) ≡ p = let al_p = f.aligned in omega arith in
          lookup_follow (suc level) (write_pte m' a v) t x (p + 7) e n0 there narrow
          ∙ ap (λ z. lookup_tables (suc level) (write_pte m' a v) z x) mask
          ∙ w.others v x (Separate-zeros (record s { mem = m }) (suc level) p vaddr x f.zeros later)
          ∙ lookup_absent level m p x (present_zero (zero_entry m level p x f.zeros))
          ∙ sym (lookup_absent (suc level) s.mem t x off)

    -- A new table is followed.
    pub Found-made :
        {out : ℕ × Pmm}
        → does (suc level) old ≡ false
        → Found (record s { mem = m }) level p vaddr out
        → Found s (suc level) t vaddr out
    Found-made new (found a m' w) =
        let avoids = Avoids-new t (f.others t c) in
        let stays = entry_stays (suc level) t w (Keeps-Clear f.keeps t c) al avoids ∙ f.entry in
        let mask : page_mask (p + 7) ≡ p = omega (arith, f.aligned) in
        found a m' (record {
          reaches =
              rw (stays, mask)
                (
                  ground (arith, f.aligned),
                  ground (arith, f.aligned),
                  w.away t (Keeps-Clear f.keeps t c) al avoids,
                  w.reaches,
                );
          positive = w.positive;
          keeps = Keeps-trans f.keeps w.keeps;
          aligned = w.aligned;
          home = w.home;
          siblings = made_siblings w;
          others = others_made w new;
          unchanged = made_unchanged w;
          away = made-Away w;
        })

others_last :
    {s : Pmm} {m : Memory} (t vaddr : ℕ)
    → ((u x : ℕ) → Clear s u → IsAligned u → u ≢ t → u ≤ x → x < u + page_size → m x ≡ s.mem x)
    → ((x : ℕ)
        → t ≤ x
        → x < t + page_size
        → (x < slot t (index 0 vaddr)) ⊎ (slot t (index 0 vaddr) + 8 ≤ x)
        → m x ≡ s.mem x)
    → IsAligned t
    → (v x : ℕ) → Separate s 1 t vaddr x
    → lookup_tables 1 (write_pte m (slot t (index 0 vaddr)) v) t x ≡ lookup_tables 1 s.mem t x
others_last t vaddr unchanged siblings al v x (inl (ne, off)) =
    others_apart 0 t vaddr (λ u y cu au av. unchanged u y cu au av.0)
      (λ u cu au av. let apart = av.0 in ground arith) v siblings (inl refl) x ne off
others_last t vaddr unchanged siblings al v x (inr (same, n0, _)) = absurd (n0 refl)

-- A walk that ends at the last table
pub Found-last :
    {s : Pmm} {t : ℕ} (vaddr : ℕ) {m : Memory}
    → Keeps s m
    → Clear (record s { mem = m }) t
    → IsAligned t
    → 0 < t
    → ((u x : ℕ) → Clear s u → IsAligned u → u ≢ t → u ≤ x → x < u + page_size → m x ≡ s.mem x)
    → ((x : ℕ)
        → t ≤ x
        → x < t + page_size
        → (x < slot t (index 0 vaddr)) ⊎ (slot t (index 0 vaddr) + 8 ≤ x)
        → m x ≡ s.mem x)
    → Found s 0 t vaddr (slot t (index 0 vaddr), record s { mem = m })
Found-last {s} {t} vaddr {m} k c al pos unchanged siblings =
    let page : page_mask (slot t (index 0 vaddr)) ≡ t = omega arith in
    found (slot t (index 0 vaddr)) m (record {
      reaches = refl;
      positive = omega arith;
      keeps = k;
      aligned = omega arith;
      home = rw page c;
      siblings = siblings;
      others = others_last {s = s} {m = m} t vaddr unchanged siblings al;
      unchanged = λ u x cu au av. unchanged u x cu au av.0;
      away = λ u cu au av. let ne = av.0 in ground arith;
    })
