-- ===== src/Tuning/Describe.antt =====
-- AppOptR/src/tuning.rs: the texts of its errors.
use app_opt_r_plus.Prelude.{◌++◌}
use app_opt_r_plus.Prelude.Text.{Text, codes}
use app_opt_r_plus.Tuning.{
  TuneError, not_string, bad_format, not_integer, out_of_range, no_max, bad_size, too_large,
  group_not_object, group_name, group_path, group_oom, thread_not_object, thread_pattern,
  thread_empty, thread_order, app_not_object, app_pkg, app_group, app_threads, app_empty,
  not_object, groups_not_array, group_twice, apps_not_array, app_twice, no_group, same_package,
  source_without_rules, source_without_group, source_without_threads, target_has_group,
  target_has_threads, not_saved,
}

-- The text of the system's error, behind that of `not_saved`, is left out.
unfoldable pub describe : TuneError → Text
describe (not_string field) = field ++ codes " 必须是字符串"
describe (bad_format field) = field ++ codes " 格式无效"
describe (not_integer field) = field ++ codes " 必须是整数"
describe (out_of_range field) = field ++ codes " 超出范围"
describe (no_max field) = field ++ codes " 不支持 max"
describe (bad_size field) = field ++ codes " 应为字节数或 512M / 1G 形式"
describe (too_large field) = field ++ codes " 数值过大"
describe group_not_object = codes "内存组必须是对象"
describe group_name = codes "内存组 name 无效"
describe (group_path name) = codes "内存组 " ++ (name ++ codes " 的 path 无效")
describe (group_oom name) = codes "内存组 " ++ (name ++ codes " 的 oom_group 必须是布尔值")
describe thread_not_object = codes "线程规则必须是对象"
describe thread_pattern = codes "线程 pattern 无效（task comm 最长通常为 15 字节）"
describe (thread_empty pattern) = codes "线程 " ++ (pattern ++ codes " 没有设置任何调优参数")
describe (thread_order pattern) = codes "线程 " ++ (pattern ++ codes " 的 UCLAMP min 不能大于 max")
describe app_not_object = codes "应用调优必须是对象"
describe app_pkg = codes "应用 pkg 无效"
describe (app_group pkg) = codes "应用 " ++ (pkg ++ codes " 的 memory_group 无效")
describe (app_threads pkg) = codes "应用 " ++ (pkg ++ codes " 的 threads 必须是数组")
describe (app_empty pkg) = codes "应用 " ++ (pkg ++ codes " 至少要关联内存组或添加一条线程规则")
describe not_object = codes "调优配置必须是 JSON 对象"
describe groups_not_array = codes "memory_groups 必须是数组"
describe (group_twice name) = codes "内存组 " ++ (name ++ codes " 重复")
describe apps_not_array = codes "apps 必须是数组"
describe (app_twice pkg) = codes "应用 " ++ (pkg ++ codes " 重复")
describe (no_group pkg group) = codes "应用 " ++ (pkg ++ (codes " 引用了不存在的内存组 " ++ group))
describe same_package = codes "源包名与目标包名不能相同"
describe source_without_rules = codes "来源应用没有调优规则"
describe source_without_group = codes "来源应用没有内存组关联"
describe source_without_threads = codes "来源应用没有线程调优规则"
describe target_has_group = codes "目标应用已有内存组关联"
describe target_has_threads = codes "目标应用已有线程调优规则"
describe (not_saved path) = codes "写入 " ++ (path ++ codes " 失败: ")
