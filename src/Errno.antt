-- ===== src/Errno.antt =====
-- The errno values that the library throws or compares with, as Linux numbers them.
use fiona.Base.{ℕ}

abbrev pub ebusy : ℕ
ebusy = 16

abbrev pub eexist : ℕ
eexist = 17

abbrev pub einval : ℕ
einval = 22

abbrev pub enfile : ℕ
enfile = 23

abbrev pub etime : ℕ
etime = 62

abbrev pub ebadfd : ℕ
ebadfd = 77

abbrev pub eisconn : ℕ
eisconn = 106

abbrev pub etimedout : ℕ
etimedout = 110

abbrev pub ecanceled : ℕ
ecanceled = 125
