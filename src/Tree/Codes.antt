-- ===== src/Tree/Codes.antt =====
-- The codes of GCC's tree nodes that the program names, and any other. A test of a code is one of the
-- numbers that tell the codes apart.
use ahaggar.Base.{ℕ, ◌+◌, Bool, ◌==◌}

pub data Code : Type 0 where
  abs_expr addr_expr addr_space_convert_expr aggr_init_expr array_range_ref array_ref : Code
  array_type assert_expr bind_expr bit_and_expr bit_ior_expr bit_not_expr bit_xor_expr : Code
  boolean_type call_expr case_label_expr ceil_div_expr ceil_mod_expr complex_expr : Code
  complex_type component_ref cond_expr const_decl constructor convert_expr : Code
  debug_expr_decl decl_expr dot_prod_expr enumeral_type eq_expr error_mark exact_div_expr : Code
  exit_expr field_decl fix_trunc_expr fixed_convert_expr fixed_cst fixed_point_type : Code
  float_expr floor_div_expr floor_mod_expr fma_expr function_decl function_type ge_expr : Code
  goto_expr gt_expr identifier_node indirect_ref init_expr integer_cst integer_type : Code
  label_decl label_expr lang_type le_expr loop_expr lrotate_expr lshift_expr lt_expr : Code
  ltgt_expr max_expr mem_ref method_type min_expr minus_expr modify_expr mult_expr : Code
  namespace_decl ne_expr negate_expr non_lvalue_expr nop_expr obj_type_ref offset_type : Code
  ordered_expr overload paren_expr parm_decl plus_expr pointer_plus_expr pointer_type : Code
  postdecrement_expr postincrement_expr predecrement_expr preincrement_expr : Code
  qual_union_type range_expr rdiv_expr real_type realign_load_expr record_type : Code
  reference_type result_decl return_expr round_div_expr round_mod_expr rrotate_expr : Code
  rshift_expr ssa_name statement_list string_cst switch_expr target_expr tree_binfo : Code
  tree_list tree_vec trunc_div_expr trunc_mod_expr truth_and_expr truth_andif_expr : Code
  truth_not_expr truth_or_expr truth_orif_expr truth_xor_expr type_decl uneq_expr : Code
  unge_expr ungt_expr union_type unle_expr unlt_expr var_decl vec_cond_expr : Code
  vec_lshift_expr vec_pack_fix_trunc_expr vec_pack_sat_expr vec_pack_trunc_expr : Code
  vec_perm_expr vec_rshift_expr vec_widen_lshift_hi_expr vec_widen_lshift_lo_expr : Code
  vec_widen_mult_hi_expr vec_widen_mult_lo_expr vector_type view_convert_expr void_type : Code
  widen_lshift_expr widen_mult_expr widen_mult_minus_expr widen_mult_plus_expr : Code
  widen_sum_expr with_cleanup_expr : Code
  other_code : ℕ → Code

unfoldable pub code_tag : Code → ℕ
code_tag abs_expr = 0
code_tag addr_expr = 1
code_tag addr_space_convert_expr = 2
code_tag aggr_init_expr = 3
code_tag array_range_ref = 4
code_tag array_ref = 5
code_tag array_type = 6
code_tag assert_expr = 7
code_tag bind_expr = 8
code_tag bit_and_expr = 9
code_tag bit_ior_expr = 10
code_tag bit_not_expr = 11
code_tag bit_xor_expr = 12
code_tag boolean_type = 13
code_tag call_expr = 14
code_tag case_label_expr = 15
code_tag ceil_div_expr = 16
code_tag ceil_mod_expr = 17
code_tag complex_expr = 18
code_tag complex_type = 19
code_tag component_ref = 20
code_tag cond_expr = 21
code_tag const_decl = 22
code_tag constructor = 23
code_tag convert_expr = 24
code_tag debug_expr_decl = 25
code_tag decl_expr = 26
code_tag dot_prod_expr = 27
code_tag enumeral_type = 28
code_tag eq_expr = 29
code_tag error_mark = 30
code_tag exact_div_expr = 31
code_tag exit_expr = 32
code_tag field_decl = 33
code_tag fix_trunc_expr = 34
code_tag fixed_convert_expr = 35
code_tag fixed_cst = 36
code_tag fixed_point_type = 37
code_tag float_expr = 38
code_tag floor_div_expr = 39
code_tag floor_mod_expr = 40
code_tag fma_expr = 41
code_tag function_decl = 42
code_tag function_type = 43
code_tag ge_expr = 44
code_tag goto_expr = 45
code_tag gt_expr = 46
code_tag identifier_node = 47
code_tag indirect_ref = 48
code_tag init_expr = 49
code_tag integer_cst = 50
code_tag integer_type = 51
code_tag label_decl = 52
code_tag label_expr = 53
code_tag lang_type = 54
code_tag le_expr = 55
code_tag loop_expr = 56
code_tag lrotate_expr = 57
code_tag lshift_expr = 58
code_tag lt_expr = 59
code_tag ltgt_expr = 60
code_tag max_expr = 61
code_tag mem_ref = 62
code_tag method_type = 63
code_tag min_expr = 64
code_tag minus_expr = 65
code_tag modify_expr = 66
code_tag mult_expr = 67
code_tag namespace_decl = 68
code_tag ne_expr = 69
code_tag negate_expr = 70
code_tag non_lvalue_expr = 71
code_tag nop_expr = 72
code_tag obj_type_ref = 73
code_tag offset_type = 74
code_tag ordered_expr = 75
code_tag overload = 76
code_tag paren_expr = 77
code_tag parm_decl = 78
code_tag plus_expr = 79
code_tag pointer_plus_expr = 80
code_tag pointer_type = 81
code_tag postdecrement_expr = 82
code_tag postincrement_expr = 83
code_tag predecrement_expr = 84
code_tag preincrement_expr = 85
code_tag qual_union_type = 86
code_tag range_expr = 87
code_tag rdiv_expr = 88
code_tag real_type = 89
code_tag realign_load_expr = 90
code_tag record_type = 91
code_tag reference_type = 92
code_tag result_decl = 93
code_tag return_expr = 94
code_tag round_div_expr = 95
code_tag round_mod_expr = 96
code_tag rrotate_expr = 97
code_tag rshift_expr = 98
code_tag ssa_name = 99
code_tag statement_list = 100
code_tag string_cst = 101
code_tag switch_expr = 102
code_tag target_expr = 103
code_tag tree_binfo = 104
code_tag tree_list = 105
code_tag tree_vec = 106
code_tag trunc_div_expr = 107
code_tag trunc_mod_expr = 108
code_tag truth_and_expr = 109
code_tag truth_andif_expr = 110
code_tag truth_not_expr = 111
code_tag truth_or_expr = 112
code_tag truth_orif_expr = 113
code_tag truth_xor_expr = 114
code_tag type_decl = 115
code_tag uneq_expr = 116
code_tag unge_expr = 117
code_tag ungt_expr = 118
code_tag union_type = 119
code_tag unle_expr = 120
code_tag unlt_expr = 121
code_tag var_decl = 122
code_tag vec_cond_expr = 123
code_tag vec_lshift_expr = 124
code_tag vec_pack_fix_trunc_expr = 125
code_tag vec_pack_sat_expr = 126
code_tag vec_pack_trunc_expr = 127
code_tag vec_perm_expr = 128
code_tag vec_rshift_expr = 129
code_tag vec_widen_lshift_hi_expr = 130
code_tag vec_widen_lshift_lo_expr = 131
code_tag vec_widen_mult_hi_expr = 132
code_tag vec_widen_mult_lo_expr = 133
code_tag vector_type = 134
code_tag view_convert_expr = 135
code_tag void_type = 136
code_tag widen_lshift_expr = 137
code_tag widen_mult_expr = 138
code_tag widen_mult_minus_expr = 139
code_tag widen_mult_plus_expr = 140
code_tag widen_sum_expr = 141
code_tag with_cleanup_expr = 142
code_tag (other_code n) = 143 + n

infix 50 ◌is◌
unfoldable pub ◌is◌ : Code → Code → Bool
unfolding code_tag
c is d = code_tag c == code_tag d
