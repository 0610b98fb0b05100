-- ===== src/ZList/Links.antt =====
-- The macros of twapi/include/zlist.h on links and lists. An object is its address, 0 is a null pointer,
-- and the links of all objects are a function of the address.
use twapi.Base.{ℕ, zero, suc, ◌+◌, ◌-◌, ◌%◌, ◌^◌, Bool, ◌==◌, if◌then◌else◌}

pub record Link : Type 0 where
  pub zl_prev : ℕ
  pub zl_next : ℕ

pub record ZList : Type 0 where
  pub zlist_head : ℕ
  pub zlist_tail : ℕ
  pub zlist_count : ℕ

abbrev pub Links : Type 0
Links = ℕ → Link

abbrev pub set_prev : Links → ℕ → ℕ → Links
set_prev ls x v y = if y == x then record (ls y) { zl_prev = v } else ls y

abbrev pub set_next : Links → ℕ → ℕ → Links
set_next ls x v y = if y == x then record (ls y) { zl_next = v } else ls y

-- An assignment under a test that the object is there.
unfoldable pub link_prev : Links → ℕ → ℕ → Links
link_prev ls x v = if x == 0 then ls else set_prev ls x v

unfoldable pub link_next : Links → ℕ → ℕ → Links
link_next ls x v = if x == 0 then ls else set_next ls x v

-- `ZLINK_NAMED_INIT`
unfoldable pub init_link : ℕ → Links → Links
init_link x ls = set_next (set_prev ls x 0) x 0

-- `ZLINK_NAMED_POSTATTACH`
unfoldable pub post_attach : ℕ → ℕ → Links → Links
unfolding link_prev
post_attach cur new ls =
    let ls1 = set_prev ls new cur in
    let ls2 = set_next ls1 new (ls1 cur).zl_next in
    let ls3 = set_next ls2 cur new in link_prev ls3 (ls3 new).zl_next new

-- `ZLINK_NAMED_PREATTACH`
unfoldable pub pre_attach : ℕ → ℕ → Links → Links
unfolding link_next
pre_attach cur new ls =
    let ls1 = set_next ls new cur in
    let ls2 = set_prev ls1 new (ls1 cur).zl_prev in
    let ls3 = set_prev ls2 cur new in link_next ls3 (ls3 new).zl_prev new

-- `ZLINK_NAMED_UNLINK`
unfoldable pub unlink : ℕ → Links → Links
unfolding link_prev link_next init_link
unlink x ls =
    let ls1 = link_next ls (ls x).zl_prev (ls x).zl_next in
    let ls2 = link_prev ls1 (ls1 x).zl_next (ls1 x).zl_prev in init_link x ls2

-- The count is an `int`.
abbrev pub increment : ℕ → ℕ
increment n = (n + 1) % 2 ^ 32

abbrev pub decrement : ℕ → ℕ
decrement n = (n + (2 ^ 32 - 1)) % 2 ^ 32

-- `ZLIST_NAMED_INIT`
abbrev pub empty_list : ZList
empty_list = record { zlist_head = 0; zlist_tail = 0; zlist_count = 0 }

-- `ZLIST_NAMED_INSERTAFTER`
unfoldable pub insert_after : ℕ → ℕ → ZList → Links → ZList × Links
unfolding post_attach
insert_after cur new l ls = (
  record {
    zlist_head = l.zlist_head;
    zlist_tail = if l.zlist_tail == cur then new else l.zlist_tail;
    zlist_count = increment l.zlist_count;
  },
  post_attach cur new ls,
)

-- `ZLIST_NAMED_APPEND`
unfoldable pub append : ℕ → ZList → Links → ZList × Links
unfolding init_link post_attach
append x l ls =
    if l.zlist_count == 0
    then (
      record { zlist_head = x; zlist_tail = x; zlist_count = increment l.zlist_count },
      init_link x ls,
    )
    else (
      record l { zlist_tail = x; zlist_count = increment l.zlist_count },
      post_attach l.zlist_tail x ls,
    )

-- `ZLIST_NAMED_PREPEND`
unfoldable pub prepend : ℕ → ZList → Links → ZList × Links
unfolding init_link pre_attach
prepend x l ls =
    if l.zlist_count == 0
    then (
      record { zlist_head = x; zlist_tail = x; zlist_count = increment l.zlist_count },
      init_link x ls,
    )
    else (
      record l { zlist_head = x; zlist_count = increment l.zlist_count },
      pre_attach l.zlist_head x ls,
    )

-- `ZLIST_NAMED_REMOVE`
unfoldable pub remove : ℕ → ZList → Links → ZList × Links
unfolding unlink
remove x l ls = (
  record {
    zlist_head = if l.zlist_head == x then (ls x).zl_next else l.zlist_head;
    zlist_tail = if l.zlist_tail == x then (ls x).zl_prev else l.zlist_tail;
    zlist_count = decrement l.zlist_count;
  },
  unlink x ls,
)

-- `ZLIST_NAMED_MOVETOHEAD`
unfoldable pub move_to_head : ℕ → ZList → Links → ZList × Links
unfolding remove prepend
move_to_head x l ls = let (l', ls') = remove x l ls in prepend x l' ls'

-- The loop of `ZLINK_NAMED_FIND` and `ZLINK_NAMED_LOCATE`, for at most `fuel` objects; `is_match` is the
-- comparison.
unfoldable pub locate_from : ℕ → (ℕ → Bool) → ℕ → Links → ℕ
locate_from zero is_match x ls = x
locate_from (suc fuel) is_match x ls =
    let rest = locate_from fuel is_match (ls x).zl_next ls in
    if x == 0 then x else if is_match x then x else rest

-- `ZLIST_NAMED_FIND` and `ZLIST_NAMED_LOCATE`
unfoldable pub locate : ℕ → (ℕ → Bool) → ZList → Links → ℕ
unfolding locate_from
locate fuel is_match l ls = locate_from fuel is_match l.zlist_head ls
