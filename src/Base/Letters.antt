-- ===== src/Base/Letters.antt =====
-- The lower case of Go's package `unicode`, beyond ASCII: the simple mappings of Unicode 15, by ranges
-- of code points.
use Prim.Native.Nat.{ℕ, ◌+◌, ◌-◌, ◌%◌}
use mathlib.Core.Bool.{◌&&◌}
use mathlib.Core.List.{List, [], ◌∷◌}
use ai_peer.Base.Tests.{leb, if◌then◌else◌, ◌==◌, nat_eq}

-- Every `step`-th code point from `first` to `last` has a lower case; that of `first` is `lower`, and
-- the others follow at the same distance.
pub record Letters : Type 0 where
  pub first : ℕ
  pub last : ℕ
  pub step : ℕ
  pub lower : ℕ

abbrev letters : ℕ → ℕ → ℕ → ℕ → Letters
letters first last step lower = record { first = first; last = last; step = step; lower = lower }

abbrev latin : List Letters
latin =
    letters 192 214 1 224
    ∷ letters 216 222 1 248
    ∷ letters 256 302 2 257
    ∷ letters 304 304 1 105
    ∷ letters 306 310 2 307
    ∷ letters 313 327 2 314
    ∷ letters 330 374 2 331
    ∷ letters 376 376 1 255
    ∷ letters 377 381 2 378
    ∷ letters 385 385 1 595
    ∷ letters 386 388 2 387
    ∷ letters 390 390 1 596
    ∷ letters 391 391 1 392
    ∷ letters 393 394 1 598
    ∷ letters 395 395 1 396
    ∷ letters 398 398 1 477
    ∷ letters 399 399 1 601
    ∷ letters 400 400 1 603
    ∷ letters 401 401 1 402
    ∷ letters 403 403 1 608
    ∷ letters 404 404 1 611
    ∷ letters 406 406 1 617
    ∷ letters 407 407 1 616
    ∷ letters 408 408 1 409
    ∷ letters 412 412 1 623
    ∷ letters 413 413 1 626
    ∷ letters 415 415 1 629
    ∷ letters 416 420 2 417
    ∷ letters 422 422 1 640
    ∷ letters 423 423 1 424
    ∷ letters 425 425 1 643
    ∷ letters 428 428 1 429
    ∷ letters 430 430 1 648
    ∷ letters 431 431 1 432
    ∷ letters 433 434 1 650
    ∷ letters 435 437 2 436
    ∷ letters 439 439 1 658
    ∷ letters 440 440 1 441
    ∷ letters 444 444 1 445
    ∷ letters 452 452 1 454
    ∷ letters 453 453 1 454
    ∷ letters 455 455 1 457
    ∷ letters 456 456 1 457
    ∷ letters 458 458 1 460
    ∷ letters 459 475 2 460
    ∷ letters 478 494 2 479
    ∷ []

abbrev greek_and_cyrillic : List Letters
greek_and_cyrillic =
    letters 497 497 1 499
    ∷ letters 498 500 2 499
    ∷ letters 502 502 1 405
    ∷ letters 503 503 1 447
    ∷ letters 504 542 2 505
    ∷ letters 544 544 1 414
    ∷ letters 546 562 2 547
    ∷ letters 570 570 1 11365
    ∷ letters 571 571 1 572
    ∷ letters 573 573 1 410
    ∷ letters 574 574 1 11366
    ∷ letters 577 577 1 578
    ∷ letters 579 579 1 384
    ∷ letters 580 580 1 649
    ∷ letters 581 581 1 652
    ∷ letters 582 590 2 583
    ∷ letters 880 882 2 881
    ∷ letters 886 886 1 887
    ∷ letters 895 895 1 1011
    ∷ letters 902 902 1 940
    ∷ letters 904 906 1 941
    ∷ letters 908 908 1 972
    ∷ letters 910 911 1 973
    ∷ letters 913 929 1 945
    ∷ letters 931 939 1 963
    ∷ letters 975 975 1 983
    ∷ letters 984 1006 2 985
    ∷ letters 1012 1012 1 952
    ∷ letters 1015 1015 1 1016
    ∷ letters 1017 1017 1 1010
    ∷ letters 1018 1018 1 1019
    ∷ letters 1021 1023 1 891
    ∷ letters 1024 1039 1 1104
    ∷ letters 1040 1071 1 1072
    ∷ letters 1120 1152 2 1121
    ∷ letters 1162 1214 2 1163
    ∷ letters 1216 1216 1 1231
    ∷ letters 1217 1229 2 1218
    ∷ letters 1232 1326 2 1233
    ∷ letters 1329 1366 1 1377
    ∷ letters 4256 4293 1 11520
    ∷ letters 4295 4295 1 11559
    ∷ letters 4301 4301 1 11565
    ∷ letters 5024 5103 1 43888
    ∷ letters 5104 5109 1 5112
    ∷ letters 7312 7354 1 4304
    ∷ []

abbrev extended : List Letters
extended =
    letters 7357 7359 1 4349
    ∷ letters 7680 7828 2 7681
    ∷ letters 7838 7838 1 223
    ∷ letters 7840 7934 2 7841
    ∷ letters 7944 7951 1 7936
    ∷ letters 7960 7965 1 7952
    ∷ letters 7976 7983 1 7968
    ∷ letters 7992 7999 1 7984
    ∷ letters 8008 8013 1 8000
    ∷ letters 8025 8031 2 8017
    ∷ letters 8040 8047 1 8032
    ∷ letters 8072 8079 1 8064
    ∷ letters 8088 8095 1 8080
    ∷ letters 8104 8111 1 8096
    ∷ letters 8120 8121 1 8112
    ∷ letters 8122 8123 1 8048
    ∷ letters 8124 8124 1 8115
    ∷ letters 8136 8139 1 8050
    ∷ letters 8140 8140 1 8131
    ∷ letters 8152 8153 1 8144
    ∷ letters 8154 8155 1 8054
    ∷ letters 8168 8169 1 8160
    ∷ letters 8170 8171 1 8058
    ∷ letters 8172 8172 1 8165
    ∷ letters 8184 8185 1 8056
    ∷ letters 8186 8187 1 8060
    ∷ letters 8188 8188 1 8179
    ∷ letters 8486 8486 1 969
    ∷ letters 8490 8490 1 107
    ∷ letters 8491 8491 1 229
    ∷ letters 8498 8498 1 8526
    ∷ letters 8544 8559 1 8560
    ∷ letters 8579 8579 1 8580
    ∷ letters 9398 9423 1 9424
    ∷ letters 11264 11311 1 11312
    ∷ letters 11360 11360 1 11361
    ∷ letters 11362 11362 1 619
    ∷ letters 11363 11363 1 7549
    ∷ letters 11364 11364 1 637
    ∷ letters 11367 11371 2 11368
    ∷ letters 11373 11373 1 593
    ∷ letters 11374 11374 1 625
    ∷ letters 11375 11375 1 592
    ∷ letters 11376 11376 1 594
    ∷ letters 11378 11378 1 11379
    ∷ letters 11381 11381 1 11382
    ∷ []

abbrev further : List Letters
further =
    letters 11390 11391 1 575
    ∷ letters 11392 11490 2 11393
    ∷ letters 11499 11501 2 11500
    ∷ letters 11506 11506 1 11507
    ∷ letters 42560 42604 2 42561
    ∷ letters 42624 42650 2 42625
    ∷ letters 42786 42798 2 42787
    ∷ letters 42802 42862 2 42803
    ∷ letters 42873 42875 2 42874
    ∷ letters 42877 42877 1 7545
    ∷ letters 42878 42886 2 42879
    ∷ letters 42891 42891 1 42892
    ∷ letters 42893 42893 1 613
    ∷ letters 42896 42898 2 42897
    ∷ letters 42902 42920 2 42903
    ∷ letters 42922 42922 1 614
    ∷ letters 42923 42923 1 604
    ∷ letters 42924 42924 1 609
    ∷ letters 42925 42925 1 620
    ∷ letters 42926 42926 1 618
    ∷ letters 42928 42928 1 670
    ∷ letters 42929 42929 1 647
    ∷ letters 42930 42930 1 669
    ∷ letters 42931 42931 1 43859
    ∷ letters 42932 42946 2 42933
    ∷ letters 42948 42948 1 42900
    ∷ letters 42949 42949 1 642
    ∷ letters 42950 42950 1 7566
    ∷ letters 42951 42953 2 42952
    ∷ letters 42960 42960 1 42961
    ∷ letters 42966 42968 2 42967
    ∷ letters 42997 42997 1 42998
    ∷ letters 65313 65338 1 65345
    ∷ letters 66560 66599 1 66600
    ∷ letters 66736 66771 1 66776
    ∷ letters 66928 66938 1 66967
    ∷ letters 66940 66954 1 66979
    ∷ letters 66956 66962 1 66995
    ∷ letters 66964 66965 1 67003
    ∷ letters 68736 68786 1 68800
    ∷ letters 71840 71871 1 71872
    ∷ letters 93760 93791 1 93792
    ∷ letters 125184 125217 1 125218
    ∷ []

lower_in : List Letters → ℕ → ℕ
lower_in [] n = n
lower_in (l ∷ ls) n =
    let rest = lower_in ls n in
    if leb l.first n && leb n l.last && (n - l.first) % l.step == 0
    then l.lower + (n - l.first)
    else rest

-- A code point is in one range at most.
unfoldable pub lower_code : ℕ → ℕ
unfolding lower_in
lower_code n = lower_in latin (lower_in greek_and_cyrillic (lower_in extended (lower_in further n)))
