-- ===== src/Cp437/Tables.antt =====
-- charset/cp437.go: the tables. What a byte is decoded to, and the entries that the encoder looks through, each
-- with the byte above its 24 lowest bits.
use telnet.Prelude.{ℕ, List, [], ◌∷◌, ◌++◌, Bytes}

abbrev cp437_decode_0 : List Bytes
cp437_decode_0 =
    (0 ∷ [])
    ∷ (226 ∷ 152 ∷ 186 ∷ [])
    ∷ (226 ∷ 152 ∷ 187 ∷ [])
    ∷ (226 ∷ 153 ∷ 165 ∷ [])
    ∷ (226 ∷ 153 ∷ 166 ∷ [])
    ∷ (226 ∷ 153 ∷ 163 ∷ [])
    ∷ (226 ∷ 153 ∷ 160 ∷ [])
    ∷ (7 ∷ [])
    ∷ (8 ∷ [])
    ∷ (226 ∷ 151 ∷ 139 ∷ [])
    ∷ (10 ∷ [])
    ∷ (226 ∷ 153 ∷ 130 ∷ [])
    ∷ (226 ∷ 153 ∷ 128 ∷ [])
    ∷ (13 ∷ [])
    ∷ (226 ∷ 153 ∷ 171 ∷ [])
    ∷ (226 ∷ 152 ∷ 188 ∷ [])
    ∷ (226 ∷ 150 ∷ 186 ∷ [])
    ∷ (226 ∷ 151 ∷ 132 ∷ [])
    ∷ (226 ∷ 134 ∷ 149 ∷ [])
    ∷ (226 ∷ 128 ∷ 188 ∷ [])
    ∷ (194 ∷ 182 ∷ [])
    ∷ (194 ∷ 167 ∷ [])
    ∷ (226 ∷ 150 ∷ 172 ∷ [])
    ∷ (226 ∷ 134 ∷ 168 ∷ [])
    ∷ (226 ∷ 134 ∷ 145 ∷ [])
    ∷ (226 ∷ 134 ∷ 147 ∷ [])
    ∷ (226 ∷ 134 ∷ 146 ∷ [])
    ∷ (27 ∷ [])
    ∷ (226 ∷ 136 ∷ 159 ∷ [])
    ∷ (226 ∷ 134 ∷ 148 ∷ [])
    ∷ (226 ∷ 150 ∷ 178 ∷ [])
    ∷ (226 ∷ 150 ∷ 188 ∷ [])
    ∷ (32 ∷ [])
    ∷ (33 ∷ [])
    ∷ (34 ∷ [])
    ∷ (35 ∷ [])
    ∷ (36 ∷ [])
    ∷ (37 ∷ [])
    ∷ (38 ∷ [])
    ∷ (39 ∷ [])
    ∷ (40 ∷ [])
    ∷ (41 ∷ [])
    ∷ (42 ∷ [])
    ∷ (43 ∷ [])
    ∷ (44 ∷ [])
    ∷ (45 ∷ [])
    ∷ (46 ∷ [])
    ∷ (47 ∷ [])
    ∷ (48 ∷ [])
    ∷ (49 ∷ [])
    ∷ (50 ∷ [])
    ∷ (51 ∷ [])
    ∷ (52 ∷ [])
    ∷ (53 ∷ [])
    ∷ (54 ∷ [])
    ∷ (55 ∷ [])
    ∷ (56 ∷ [])
    ∷ (57 ∷ [])
    ∷ (58 ∷ [])
    ∷ (59 ∷ [])
    ∷ (60 ∷ [])
    ∷ (61 ∷ [])
    ∷ (62 ∷ [])
    ∷ (63 ∷ [])
    ∷ []

abbrev cp437_decode_64 : List Bytes
cp437_decode_64 =
    (64 ∷ [])
    ∷ (65 ∷ [])
    ∷ (66 ∷ [])
    ∷ (67 ∷ [])
    ∷ (68 ∷ [])
    ∷ (69 ∷ [])
    ∷ (70 ∷ [])
    ∷ (71 ∷ [])
    ∷ (72 ∷ [])
    ∷ (73 ∷ [])
    ∷ (74 ∷ [])
    ∷ (75 ∷ [])
    ∷ (76 ∷ [])
    ∷ (77 ∷ [])
    ∷ (78 ∷ [])
    ∷ (79 ∷ [])
    ∷ (80 ∷ [])
    ∷ (81 ∷ [])
    ∷ (82 ∷ [])
    ∷ (83 ∷ [])
    ∷ (84 ∷ [])
    ∷ (85 ∷ [])
    ∷ (86 ∷ [])
    ∷ (87 ∷ [])
    ∷ (88 ∷ [])
    ∷ (89 ∷ [])
    ∷ (90 ∷ [])
    ∷ (91 ∷ [])
    ∷ (92 ∷ [])
    ∷ (93 ∷ [])
    ∷ (94 ∷ [])
    ∷ (95 ∷ [])
    ∷ (96 ∷ [])
    ∷ (97 ∷ [])
    ∷ (98 ∷ [])
    ∷ (99 ∷ [])
    ∷ (100 ∷ [])
    ∷ (101 ∷ [])
    ∷ (102 ∷ [])
    ∷ (103 ∷ [])
    ∷ (104 ∷ [])
    ∷ (105 ∷ [])
    ∷ (106 ∷ [])
    ∷ (107 ∷ [])
    ∷ (108 ∷ [])
    ∷ (109 ∷ [])
    ∷ (110 ∷ [])
    ∷ (111 ∷ [])
    ∷ (112 ∷ [])
    ∷ (113 ∷ [])
    ∷ (114 ∷ [])
    ∷ (115 ∷ [])
    ∷ (116 ∷ [])
    ∷ (117 ∷ [])
    ∷ (118 ∷ [])
    ∷ (119 ∷ [])
    ∷ (120 ∷ [])
    ∷ (121 ∷ [])
    ∷ (122 ∷ [])
    ∷ (123 ∷ [])
    ∷ (124 ∷ [])
    ∷ (125 ∷ [])
    ∷ (126 ∷ [])
    ∷ (127 ∷ [])
    ∷ []

abbrev cp437_decode_128 : List Bytes
cp437_decode_128 =
    (195 ∷ 135 ∷ [])
    ∷ (195 ∷ 188 ∷ [])
    ∷ (195 ∷ 169 ∷ [])
    ∷ (195 ∷ 162 ∷ [])
    ∷ (195 ∷ 164 ∷ [])
    ∷ (195 ∷ 160 ∷ [])
    ∷ (195 ∷ 165 ∷ [])
    ∷ (195 ∷ 167 ∷ [])
    ∷ (195 ∷ 170 ∷ [])
    ∷ (195 ∷ 171 ∷ [])
    ∷ (195 ∷ 168 ∷ [])
    ∷ (195 ∷ 175 ∷ [])
    ∷ (195 ∷ 174 ∷ [])
    ∷ (195 ∷ 172 ∷ [])
    ∷ (195 ∷ 132 ∷ [])
    ∷ (195 ∷ 133 ∷ [])
    ∷ (195 ∷ 137 ∷ [])
    ∷ (195 ∷ 166 ∷ [])
    ∷ (195 ∷ 134 ∷ [])
    ∷ (195 ∷ 180 ∷ [])
    ∷ (195 ∷ 182 ∷ [])
    ∷ (195 ∷ 178 ∷ [])
    ∷ (195 ∷ 187 ∷ [])
    ∷ (195 ∷ 185 ∷ [])
    ∷ (195 ∷ 191 ∷ [])
    ∷ (195 ∷ 150 ∷ [])
    ∷ (195 ∷ 156 ∷ [])
    ∷ (194 ∷ 162 ∷ [])
    ∷ (194 ∷ 163 ∷ [])
    ∷ (194 ∷ 165 ∷ [])
    ∷ (226 ∷ 130 ∷ 167 ∷ [])
    ∷ (198 ∷ 146 ∷ [])
    ∷ (195 ∷ 161 ∷ [])
    ∷ (195 ∷ 173 ∷ [])
    ∷ (195 ∷ 179 ∷ [])
    ∷ (195 ∷ 186 ∷ [])
    ∷ (195 ∷ 177 ∷ [])
    ∷ (195 ∷ 145 ∷ [])
    ∷ (194 ∷ 170 ∷ [])
    ∷ (194 ∷ 186 ∷ [])
    ∷ (194 ∷ 191 ∷ [])
    ∷ (226 ∷ 140 ∷ 144 ∷ [])
    ∷ (194 ∷ 172 ∷ [])
    ∷ (194 ∷ 189 ∷ [])
    ∷ (194 ∷ 188 ∷ [])
    ∷ (194 ∷ 161 ∷ [])
    ∷ (194 ∷ 171 ∷ [])
    ∷ (194 ∷ 187 ∷ [])
    ∷ (226 ∷ 150 ∷ 145 ∷ [])
    ∷ (226 ∷ 150 ∷ 146 ∷ [])
    ∷ (226 ∷ 150 ∷ 147 ∷ [])
    ∷ (226 ∷ 148 ∷ 130 ∷ [])
    ∷ (226 ∷ 148 ∷ 164 ∷ [])
    ∷ (226 ∷ 149 ∷ 161 ∷ [])
    ∷ (226 ∷ 149 ∷ 162 ∷ [])
    ∷ (226 ∷ 149 ∷ 150 ∷ [])
    ∷ (226 ∷ 149 ∷ 149 ∷ [])
    ∷ (226 ∷ 149 ∷ 163 ∷ [])
    ∷ (226 ∷ 149 ∷ 145 ∷ [])
    ∷ (226 ∷ 149 ∷ 151 ∷ [])
    ∷ (226 ∷ 149 ∷ 157 ∷ [])
    ∷ (226 ∷ 149 ∷ 156 ∷ [])
    ∷ (226 ∷ 149 ∷ 155 ∷ [])
    ∷ (226 ∷ 148 ∷ 144 ∷ [])
    ∷ []

abbrev cp437_decode_192 : List Bytes
cp437_decode_192 =
    (226 ∷ 148 ∷ 148 ∷ [])
    ∷ (226 ∷ 148 ∷ 180 ∷ [])
    ∷ (226 ∷ 148 ∷ 172 ∷ [])
    ∷ (226 ∷ 148 ∷ 156 ∷ [])
    ∷ (226 ∷ 148 ∷ 128 ∷ [])
    ∷ (226 ∷ 148 ∷ 188 ∷ [])
    ∷ (226 ∷ 149 ∷ 158 ∷ [])
    ∷ (226 ∷ 149 ∷ 159 ∷ [])
    ∷ (226 ∷ 149 ∷ 154 ∷ [])
    ∷ (226 ∷ 149 ∷ 148 ∷ [])
    ∷ (226 ∷ 149 ∷ 169 ∷ [])
    ∷ (226 ∷ 149 ∷ 166 ∷ [])
    ∷ (226 ∷ 149 ∷ 160 ∷ [])
    ∷ (226 ∷ 149 ∷ 144 ∷ [])
    ∷ (226 ∷ 149 ∷ 172 ∷ [])
    ∷ (226 ∷ 149 ∷ 167 ∷ [])
    ∷ (226 ∷ 149 ∷ 168 ∷ [])
    ∷ (226 ∷ 149 ∷ 164 ∷ [])
    ∷ (226 ∷ 149 ∷ 165 ∷ [])
    ∷ (226 ∷ 149 ∷ 153 ∷ [])
    ∷ (226 ∷ 149 ∷ 152 ∷ [])
    ∷ (226 ∷ 149 ∷ 146 ∷ [])
    ∷ (226 ∷ 149 ∷ 147 ∷ [])
    ∷ (226 ∷ 149 ∷ 171 ∷ [])
    ∷ (226 ∷ 149 ∷ 170 ∷ [])
    ∷ (226 ∷ 148 ∷ 152 ∷ [])
    ∷ (226 ∷ 148 ∷ 140 ∷ [])
    ∷ (226 ∷ 150 ∷ 136 ∷ [])
    ∷ (226 ∷ 150 ∷ 132 ∷ [])
    ∷ (226 ∷ 150 ∷ 140 ∷ [])
    ∷ (226 ∷ 150 ∷ 144 ∷ [])
    ∷ (226 ∷ 150 ∷ 128 ∷ [])
    ∷ (206 ∷ 177 ∷ [])
    ∷ (195 ∷ 159 ∷ [])
    ∷ (206 ∷ 147 ∷ [])
    ∷ (207 ∷ 128 ∷ [])
    ∷ (206 ∷ 163 ∷ [])
    ∷ (207 ∷ 131 ∷ [])
    ∷ (194 ∷ 181 ∷ [])
    ∷ (207 ∷ 132 ∷ [])
    ∷ (206 ∷ 166 ∷ [])
    ∷ (206 ∷ 152 ∷ [])
    ∷ (206 ∷ 169 ∷ [])
    ∷ (206 ∷ 180 ∷ [])
    ∷ (226 ∷ 136 ∷ 158 ∷ [])
    ∷ (207 ∷ 134 ∷ [])
    ∷ (206 ∷ 181 ∷ [])
    ∷ (226 ∷ 136 ∷ 169 ∷ [])
    ∷ (226 ∷ 137 ∷ 161 ∷ [])
    ∷ (194 ∷ 177 ∷ [])
    ∷ (226 ∷ 137 ∷ 165 ∷ [])
    ∷ (226 ∷ 137 ∷ 164 ∷ [])
    ∷ (226 ∷ 140 ∷ 160 ∷ [])
    ∷ (226 ∷ 140 ∷ 161 ∷ [])
    ∷ (195 ∷ 183 ∷ [])
    ∷ (226 ∷ 137 ∷ 136 ∷ [])
    ∷ (194 ∷ 176 ∷ [])
    ∷ (226 ∷ 136 ∷ 153 ∷ [])
    ∷ (194 ∷ 183 ∷ [])
    ∷ (226 ∷ 136 ∷ 154 ∷ [])
    ∷ (226 ∷ 129 ∷ 191 ∷ [])
    ∷ (194 ∷ 178 ∷ [])
    ∷ (226 ∷ 150 ∷ 160 ∷ [])
    ∷ (194 ∷ 160 ∷ [])
    ∷ []

abbrev pub cp437_decode : List Bytes
cp437_decode = cp437_decode_0 ++ (cp437_decode_64 ++ (cp437_decode_128 ++ cp437_decode_192))

abbrev cp437_encode_0 : List ℕ
cp437_encode_0 =
    0 ∷ 31627450 ∷ 48404667 ∷ 65182117 ∷ 81959334 ∷ 98736547 ∷ 115513760 ∷ 117440519 ∷ 134217736
    ∷ 165844875 ∷ 167772170 ∷ 199399810 ∷ 216177024 ∷ 218103821 ∷ 249731499 ∷ 266508476 ∷ 283285178
    ∷ 300062596 ∷ 316835477 ∷ 333611196 ∷ 335594166 ∷ 352371367 ∷ 383948460 ∷ 400721576 ∷ 417498769
    ∷ 434275987 ∷ 451053202 ∷ 452984859 ∷ 484608159 ∷ 501384852 ∷ 518166194 ∷ 534943420 ∷ 536870944
    ∷ 553648161 ∷ 570425378 ∷ 587202595 ∷ 603979812 ∷ 620757029 ∷ 637534246 ∷ 654311463 ∷ 671088680
    ∷ 687865897 ∷ 704643114 ∷ 721420331 ∷ 738197548 ∷ 754974765 ∷ 771751982 ∷ 788529199 ∷ 805306416
    ∷ 822083633 ∷ 838860850 ∷ 855638067 ∷ 872415284 ∷ 889192501 ∷ 905969718 ∷ 922746935 ∷ 939524152
    ∷ 956301369 ∷ 973078586 ∷ 989855803 ∷ 1006633020 ∷ 1023410237 ∷ 1040187454 ∷ 1056964671 ∷ []

abbrev cp437_encode_64 : List ℕ
cp437_encode_64 =
    1073741888 ∷ 1090519105 ∷ 1107296322 ∷ 1124073539 ∷ 1140850756 ∷ 1157627973 ∷ 1174405190
    ∷ 1191182407 ∷ 1207959624 ∷ 1224736841 ∷ 1241514058 ∷ 1258291275 ∷ 1275068492 ∷ 1291845709
    ∷ 1308622926 ∷ 1325400143 ∷ 1342177360 ∷ 1358954577 ∷ 1375731794 ∷ 1392509011 ∷ 1409286228
    ∷ 1426063445 ∷ 1442840662 ∷ 1459617879 ∷ 1476395096 ∷ 1493172313 ∷ 1509949530 ∷ 1526726747
    ∷ 1543503964 ∷ 1560281181 ∷ 1577058398 ∷ 1593835615 ∷ 1610612832 ∷ 1627390049 ∷ 1644167266
    ∷ 1660944483 ∷ 1677721700 ∷ 1694498917 ∷ 1711276134 ∷ 1728053351 ∷ 1744830568 ∷ 1761607785
    ∷ 1778385002 ∷ 1795162219 ∷ 1811939436 ∷ 1828716653 ∷ 1845493870 ∷ 1862271087 ∷ 1879048304
    ∷ 1895825521 ∷ 1912602738 ∷ 1929379955 ∷ 1946157172 ∷ 1962934389 ∷ 1979711606 ∷ 1996488823
    ∷ 2013266040 ∷ 2030043257 ∷ 2046820474 ∷ 2063597691 ∷ 2080374908 ∷ 2097152125 ∷ 2113929342
    ∷ 2130706559 ∷ []

abbrev cp437_encode_128 : List ℕ
cp437_encode_128 =
    4278190240 ∷ 2902458529 ∷ 2600468642 ∷ 2617245859 ∷ 2634023077 ∷ 2785018026 ∷ 2919235755
    ∷ 2852126892 ∷ 4160749744 ∷ 4043309233 ∷ 4244635826 ∷ 3858759861 ∷ 4194304183 ∷ 2801795258
    ∷ 2936012987 ∷ 2885681340 ∷ 2868904125 ∷ 2818572479 ∷ 2382364868 ∷ 2399142085 ∷ 2449473734
    ∷ 2147483847 ∷ 2415919305 ∷ 2768240849 ∷ 2566914262 ∷ 2583691484 ∷ 3774873823 ∷ 2231369952
    ∷ 2684354785 ∷ 2197815522 ∷ 2214592740 ∷ 2248147173 ∷ 2432696550 ∷ 2264924391 ∷ 2315256040
    ∷ 2181038313 ∷ 2281701610 ∷ 2298478827 ∷ 2365587692 ∷ 2701132013 ∷ 2348810478 ∷ 2332033263
    ∷ 2751463665 ∷ 2499805426 ∷ 2717909235 ∷ 2466250996 ∷ 2483028214 ∷ 4127195383 ∷ 2533359865
    ∷ 2734686458 ∷ 2516582651 ∷ 2164261116 ∷ 2550137087 ∷ 2667577746 ∷ 3791651731 ∷ 3909092248
    ∷ 3825206179 ∷ 3892315046 ∷ 3925869481 ∷ 3758097329 ∷ 3942646708 ∷ 3992978357 ∷ 3808428992
    ∷ 3841983427 ∷ []

abbrev cp437_encode_192 : List ℕ
cp437_encode_192 =
    3875537860 ∷ 3976201158 ∷ 4227866751 ∷ 2650808487 ∷ 4177535513 ∷ 4211089946 ∷ 3959431710
    ∷ 4009763369 ∷ 4143981128 ∷ 4026540641 ∷ 4076872292 ∷ 4060095077 ∷ 2835358480 ∷ 4093649696
    ∷ 4110426913 ∷ 3288343808 ∷ 3003131138 ∷ 3657442572 ∷ 3204457744 ∷ 3221234964 ∷ 3640665368
    ∷ 3271566620 ∷ 3019908388 ∷ 3254789420 ∷ 3238012212 ∷ 3305121084 ∷ 3439338832 ∷ 3120571729
    ∷ 3573556562 ∷ 3590333779 ∷ 3372229972 ∷ 3087017301 ∷ 3070240086 ∷ 3137348951 ∷ 3556779352
    ∷ 3540002137 ∷ 3355452762 ∷ 3187680603 ∷ 3170903388 ∷ 3154126173 ∷ 3321898334 ∷ 3338675551
    ∷ 3422561632 ∷ 3036685665 ∷ 3053462882 ∷ 3103794531 ∷ 3506447716 ∷ 3523224933 ∷ 3405784422
    ∷ 3472893287 ∷ 3489670504 ∷ 3389007209 ∷ 3623888234 ∷ 3607111019 ∷ 3456116076 ∷ 3741328768
    ∷ 3690997124 ∷ 3674219912 ∷ 3707774348 ∷ 3724551568 ∷ 2952799633 ∷ 2969576850 ∷ 2986354067
    ∷ 4261422496 ∷ []

abbrev pub cp437_encode : List ℕ
cp437_encode = cp437_encode_0 ++ (cp437_encode_64 ++ (cp437_encode_128 ++ cp437_encode_192))
